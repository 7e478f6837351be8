-- ===== src/Txn/Participants/Matching.antt =====
-- The writes by shard are the staged mutations, each once.
use dtgproxy.Base.{
  ℕ, ◌+◌, ◌≡◌, refl, sym, subst, ap, inl, inr, Bool, true, false, List, [], ◌∷◌, arith, is_dec,
  Dec-cases, none, some, ok, Option-cases, Bool-cases,
}
use dtgproxy.Base.Map.{nat_key}
use dtgproxy.Storage.Mutation.{LogicalMutation}
use dtgproxy.Txn.Participants.{
  LogicalMutation-discrete, last_of, init_of, last_first, take_match, match_all,
}

abbrev pub is_same : LogicalMutation → LogicalMutation → Bool
is_same x m = is_dec (LogicalMutation-discrete x m)

abbrev one_if : Bool → ℕ
one_if true = 1
one_if false = 0

-- How often a mutation stands in a list.
abbrev pub count : LogicalMutation → List LogicalMutation → ℕ
count m [] = 0
count m (x ∷ xs) = one_if (is_same x m) + count m xs

count-last_of :
    (m y : LogicalMutation) (ys : List LogicalMutation)
    → count m (last_of y ys ∷ init_of y ys) ≡ count m (y ∷ ys)
count-last_of m y [] = refl
count-last_of m y (z ∷ zs) = let rest = count-last_of m z zs in omega arith

count-last_first :
    (m : LogicalMutation) (xs : List LogicalMutation) → count m (last_first xs) ≡ count m xs
count-last_first m [] = refl
count-last_first m (y ∷ ys) = count-last_of m y ys

is_same_lem : (x m : LogicalMutation) → is_same x m ≡ true → x ≡ m
is_same_lem x m h = elim (Dec-cases (LogicalMutation-discrete x m)) [
  | inl (e, _) ↦ e
  | inr (_, e) ↦ cc
]

is_same_refl : (x : LogicalMutation) → is_same x x ≡ true
is_same_refl x = elim (Dec-cases (LogicalMutation-discrete x x)) [
  | inl (_, e) ↦ e
  | inr (n, _) ↦ absurd (n refl)
]

count-take_match :
    (m : LogicalMutation) (xs ys : List LogicalMutation)
    → take_match m xs ≡ some ys
    → (x : LogicalMutation) → count x xs ≡ one_if (is_same m x) + count x ys
count-take_match m [] ys e x = cc
count-take_match m (c ∷ cs) ys e x = elim (Bool-cases (is_same c m)) [
  | inl hit ↦
      let same = is_same_lem c m hit in
      let taken : last_first cs ≡ ys = ground arith in
      let moved = count-last_first x cs in
      subst (λ z. count x (c ∷ cs) ≡ one_if (is_same z x) + count x ys) same
        (subst (λ l. count x (c ∷ cs) ≡ one_if (is_same c x) + count x l) taken (omega arith))
  | inr miss ↦ elim (Option-cases (take_match m cs)) [
    | inl missing ↦ let no_way : ⊥ = ground arith in absurd no_way
    | inr (rest, found) ↦
        let left : c ∷ rest ≡ ys = ground arith in
        let later = count-take_match m cs rest found x in
        subst (λ l. count x (c ∷ cs) ≡ one_if (is_same m x) + count x l) left (omega arith)
  ]
]

take_match-none :
    (m : LogicalMutation) (xs : List LogicalMutation) → take_match m xs ≡ none → count m xs ≡ 0
take_match-none m [] e = refl
take_match-none m (c ∷ cs) e = elim (Bool-cases (is_same c m)) [
  | inl hit ↦ let no_way : ⊥ = ground arith in absurd no_way
  | inr miss ↦ elim (Option-cases (take_match m cs)) [
    | inl missing ↦ let rest = take_match-none m cs missing in ground arith
    | inr (rest, found) ↦ let no_way : ⊥ = ground arith in absurd no_way
  ]
]

abbrev pub SameCounts : List LogicalMutation → List LogicalMutation → Type 0
SameCounts xs ys = (m : LogicalMutation) → count m xs ≡ count m ys

count-nil : (xs : List LogicalMutation) → SameCounts [] xs → xs ≡ []
count-nil [] h = refl
count-nil (x ∷ xs) h =
    let none_there = h x in
    let one = is_same_refl x in let no_way : ⊥ = ground arith in absurd no_way

pub match_all-SameCounts :
    (ms unmatched : List LogicalMutation) → match_all ms unmatched ≡ ok [] → SameCounts ms unmatched
unfolding match_all
match_all-SameCounts [] unmatched e x =
    let all_gone : unmatched ≡ [] = ground arith in sym (ap (count x) all_gone)
match_all-SameCounts (m ∷ ms) unmatched e x = elim (Option-cases (take_match m unmatched)) [
  | inl missing ↦ let no_way : ⊥ = ground arith in absurd no_way
  | inr (rest, found) ↦
      let later = match_all-SameCounts ms rest (ground arith) x in
      let taken = count-take_match m unmatched rest found x in omega arith
]

pub SameCounts-match_all :
    (ms unmatched : List LogicalMutation) → SameCounts ms unmatched → match_all ms unmatched ≡ ok []
unfolding match_all
SameCounts-match_all [] unmatched h = ap ok (count-nil unmatched h)
SameCounts-match_all (m ∷ ms) unmatched h = elim (Option-cases (take_match m unmatched)) [
  | inl missing ↦
      let gone = take_match-none m unmatched missing in
      let one = is_same_refl m in let here = h m in let no_way : ⊥ = ground arith in absurd no_way
  | inr (rest, found) ↦
      let later = SameCounts-match_all ms rest (λ x.
        let taken = count-take_match m unmatched rest found x in let here = h x in omega arith) in
      ground arith
]
