-- ===== src/Base/Lists.antt =====
-- Lists measured and indexed by native numbers, under the library's names, with Boolean `any`.
use Prim.Native.Nat.{ℕ, zero, suc, ◌+◌}
use mathlib.Core.Path.{◌≡◌, refl, sym, ap, ◌∙◌}
use mathlib.Core.Bool.{Bool, true, false, ◌&&◌, ◌||◌}
use mathlib.Core.List.{List, [], ◌∷◌, ◌++◌}
use native.Mathlib.Omega.{arith}
use dtgproxy.Base.Tests.{if◌then◌else◌, if_intro}

module _ {ℓ} {A : Type ℓ} where
  abbrev pub length : List A → ℕ
  length [] = 0
  length (x ∷ xs) = suc (length xs)

  abbrev pub take : ℕ → List A → List A
  take zero xs = []
  take (suc n) [] = []
  take (suc n) (x ∷ xs) = x ∷ take n xs

  abbrev pub drop : ℕ → List A → List A
  drop zero xs = xs
  drop (suc n) [] = []
  drop (suc n) (x ∷ xs) = drop n xs

  abbrev pub any : (A → Bool) → List A → Bool
  any p [] = false
  any p (x ∷ xs) = p x || any p xs

  abbrev pub is_nil : List A → Bool
  is_nil [] = true
  is_nil (_ ∷ _) = false

  abbrev pub all : (A → Bool) → List A → Bool
  all p [] = true
  all p (x ∷ xs) = p x && all p xs

  abbrev pub filter : (A → Bool) → List A → List A
  filter p [] = []
  filter p (x ∷ xs) = let rest = filter p xs in if p x then x ∷ rest else rest

  abbrev pub flat_map {κ} : {B : Type κ} → (A → List B) → List A → List B
  flat_map f [] = []
  flat_map f (x ∷ xs) = f x ++ flat_map f xs

  -- Some element is related to a later one.
  abbrev pub any_pair : (A → A → Bool) → List A → Bool
  any_pair r [] = false
  any_pair r (x ∷ xs) = any (r x) xs || any_pair r xs

  -- A stable sort: `less` holds of keys that differ, and equal keys keep their order.
  abbrev pub place_by : (A → A → Bool) → A → List A → List A
  place_by less x [] = x ∷ []
  place_by less x (y ∷ ys) = if less y x then y ∷ place_by less x ys else x ∷ y ∷ ys

  abbrev pub sort_by : (A → A → Bool) → List A → List A
  sort_by less [] = []
  sort_by less (x ∷ xs) = place_by less x (sort_by less xs)

  abbrev pub All {κ} : (A → Type κ) → List A → Type κ
  All P [] = Unit {κ}
  All P (x ∷ xs) = P x × All P xs

  pub length-append : (xs ys : List A) → length (xs ++ ys) ≡ length xs + length ys
  length-append [] ys = omega arith
  length-append (x ∷ xs) ys = omega (arith, length-append xs ys)

module _ {ℓ} {A : Type ℓ} where
  pub All-map {κ μ} :
      (P : A → Type κ) (Q : A → Type μ) (f : (a : A) → P a → Q a) (xs : List A)
      → All P xs
      → All Q xs
  All-map P Q f [] h = tt
  All-map P Q f (x ∷ xs) h = (f x h.0, All-map P Q f xs h.1)

  pub All-append {κ} : (P : A → Type κ) (xs ys : List A) → All P xs → All P ys → All P (xs ++ ys)
  All-append P [] ys h k = k
  All-append P (x ∷ xs) ys h k = (h.0, All-append P xs ys h.1 k)

  -- What no element passes, each element fails.
  pub All-any-false : (p : A → Bool) (xs : List A) → any p xs ≡ false → All (λ x. p x ≡ false) xs
  All-any-false p [] h = tt
  All-any-false p (x ∷ xs) h = (ground arith, All-any-false p xs (ground arith))

  -- What each element fails, no element passes.
  pub any-All-false : (p : A → Bool) (xs : List A) → All (λ x. p x ≡ false) xs → any p xs ≡ false
  any-All-false p [] h = refl
  any-All-false p (x ∷ xs) h = ground (arith, h.0, any-All-false p xs h.1)

  pub any_none : (xs : List A) → any (λ x. false) xs ≡ false
  any_none [] = refl
  any_none (x ∷ xs) = any_none xs

  any_or : (p q : A → Bool) (xs : List A) → any (λ x. p x || q x) xs ≡ (any p xs || any q xs)
  any_or p q [] = refl
  any_or p q (x ∷ xs) = ground (arith, any_or p q xs)

  pub any_same : (p q : A → Bool) → ((x : A) → p x ≡ q x) → (xs : List A) → any p xs ≡ any q xs
  any_same p q same [] = refl
  any_same p q same (x ∷ xs) = ground (arith, same x, any_same p q same xs)

  pub any_swap {κ} :
      {B : Type κ} (f : B → A → Bool) (xs : List B) (ys : List A)
      → any (λ x. any (f x) ys) xs ≡ any (λ y. any (λ x. f x y) xs) ys
  any_swap f [] ys = sym (any_none ys)
  any_swap f (x ∷ xs) ys =
      ap (λ b. any (f x) ys || b) (any_swap f xs ys)
      ∙ sym (any_or (f x) (λ y. any (λ z. f z y) xs) ys)

  pub any-append : (p : A → Bool) (xs ys : List A) → any p (xs ++ ys) ≡ (any p xs || any p ys)
  any-append p [] ys = refl
  any-append p (x ∷ xs) ys = ground (arith, any-append p xs ys)

  pub take-append : (xs ys : List A) → take (length xs) (xs ++ ys) ≡ xs
  take-append [] ys = refl
  take-append (x ∷ xs) ys = ap (◌∷◌ x) (take-append xs ys)

  pub drop-append : (xs ys : List A) → drop (length xs) (xs ++ ys) ≡ ys
  drop-append [] ys = refl
  drop-append (x ∷ xs) ys = drop-append xs ys

module _ {ℓ} {A : Type ℓ} where
  -- A write out of bounds changes nothing.
  abbrev pub set : List A → ℕ → A → List A
  set [] i v = []
  set (x ∷ xs) zero v = v ∷ xs
  set (x ∷ xs) (suc i) v = x ∷ set xs i v

module _ {ℓ} {A : Type ℓ} (p : A → Bool) (less : A → A → Bool) where
  any-place_by : (x : A) (xs : List A) → any p (place_by less x xs) ≡ (p x || any p xs)
  any-place_by x [] = refl
  any-place_by x (y ∷ ys) = ground (arith, any-place_by x ys)

  -- Sorting changes no test of the elements.
  pub any-sort_by : (xs : List A) → any p (sort_by less xs) ≡ any p xs
  any-sort_by [] = refl
  any-sort_by (x ∷ xs) = ground (arith, any-place_by x (sort_by less xs), any-sort_by xs)

module _ {ℓ κ} {A : Type ℓ} (P : A → Type κ) (less : A → A → Bool) where
  pub All-place_by : (x : A) (xs : List A) → P x → All P xs → All P (place_by less x xs)
  All-place_by x [] h k = (h, tt)
  All-place_by x (y ∷ ys) h k =
      if_intro (All P) (less y x) (y ∷ place_by less x ys) (x ∷ y ∷ ys)
        (λ _. (k.0, All-place_by x ys h k.1)) (λ _. (h, k))

  pub All-sort_by : (xs : List A) → All P xs → All P (sort_by less xs)
  All-sort_by [] h = tt
  All-sort_by (x ∷ xs) h = All-place_by x (sort_by less xs) h.0 (All-sort_by xs h.1)
