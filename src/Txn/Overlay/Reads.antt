-- ===== src/Txn/Overlay/Reads.antt =====
-- What a transaction reads of its own writes and of the base.
use dtgproxy.Base.{
  IsIn, any-IsIn, ℕ, ◌≡◌, ◌≤◌, refl, sym, subst, inl, inr, Bool, true, false, ◌&&◌, List, [], ◌∷◌,
  any, filter, arith, ℤ, ltb, Option, none, some, Bool-cases, if◌then◌else◌, if_intro, ◌⊎◌,
}
use dtgproxy.Storage.Mutation.{VertexVersion}
use dtgproxy.Txn.Overlay.{
  TransactionOverlay, deletes_vertex, vertex_at, staged_vertices, max_by_key, keep_later, or_else,
  get_vertex,
}

module _ {A : Type 0} (key : A → ℕ) (p : A → Bool) where
  abbrev pub newer : ℕ → A → Bool
  newer n x = p x && ltb n (key x)

  -- The newest of the elements that pass, or that there is none.
  abbrev pub IsNewest : List A → Option A → Type 0
  IsNewest xs none = any p xs ≡ false
  IsNewest xs (some m) = IsIn m xs × (p m ≡ true) × (any (newer (key m)) xs ≡ false)

  newer_mono : (xs : List A) (a b : ℕ) → a ≤ b → any (newer a) xs ≡ false → any (newer b) xs ≡ false
  newer_mono [] a b le h = refl
  newer_mono (x ∷ xs) a b le h = ground (arith, newer_mono xs a b le)

  none_newer : (xs : List A) (a : ℕ) → any p xs ≡ false → any (newer a) xs ≡ false
  none_newer [] a h = refl
  none_newer (x ∷ xs) a h = ground (arith, none_newer xs a)

  IsNewest-hit :
      (x : A) (xs : List A) (o : Option A)
      → p x ≡ true
      → IsNewest xs o
      → IsNewest (x ∷ xs) (keep_later key x o)
  IsNewest-hit x xs none hit h = (inl refl, hit, ground (arith, none_newer xs (key x) h))
  IsNewest-hit x xs (some m) hit h =
      if_intro (λ o. IsNewest (x ∷ xs) o) (ltb (key m) (key x)) (some x) (some m)
        (λ later.
          let rest = newer_mono xs (key m) (key x) (ground arith) h.2 in
          (inl refl, hit, ground arith))
        (λ earlier. (inr h.0, h.1, ground (arith, h.2)))

  IsNewest-miss :
      (x : A) (xs : List A) (o : Option A) → p x ≡ false → IsNewest xs o → IsNewest (x ∷ xs) o
  IsNewest-miss x xs none miss h = ground arith
  IsNewest-miss x xs (some m) miss h = (inr h.0, h.1, ground (arith, h.2))

  max_by_key-IsNewest : (xs : List A) → IsNewest xs (max_by_key key (filter p xs))
  max_by_key-IsNewest [] = refl
  max_by_key-IsNewest (x ∷ xs) = elim (Bool-cases (p x)) [
    | inl hit ↦
        let step = IsNewest-hit x xs (max_by_key key (filter p xs)) hit (max_by_key-IsNewest xs) in
        subst (λ b. IsNewest (x ∷ xs) (max_by_key key (if b then x ∷ filter p xs else filter p xs)))
          (sym hit) step
    | inr miss ↦
        let step =
          IsNewest-miss x xs (max_by_key key (filter p xs)) miss (max_by_key-IsNewest xs) in
        subst (λ b. IsNewest (x ∷ xs) (max_by_key key (if b then x ∷ filter p xs else filter p xs)))
          (sym miss) step
  ]

  -- The first list is looked at first, the second where nothing in the first passes.
  IsNewest-or_else :
      (xs ys : List A) (a b : Option A)
      → IsNewest xs a
      → IsNewest ys b
      → IsNewest (if any p xs then xs else ys) (or_else a b)
  IsNewest-or_else xs ys none b h k = subst (λ c. IsNewest (if c then xs else ys) b) (sym h) k
  IsNewest-or_else xs ys (some m) b h k =
      let some_pass : any p xs ≡ true = any-IsIn p m xs h.0 h.1 in
      subst (λ c. IsNewest (if c then xs else ys) (some m)) (sym some_pass) h

-- Where a read looks: among the staged versions if one of them is valid at the instant, and else
-- in the base.
abbrev pub sources : TransactionOverlay → List VertexVersion → ℕ → ℤ → List VertexVersion
sources overlay base id t =
    if any (vertex_at id t) (staged_vertices overlay.mutations)
    then staged_vertices overlay.mutations
    else base

-- What a read promises of its result: if the transaction has deleted the vertex there is none, and
-- else it is the newest of the versions that are valid at the instant.
abbrev pub IsRead : TransactionOverlay → List VertexVersion → ℕ → ℤ → Option VertexVersion → Type 0
IsRead overlay base id t result =
    ((any (deletes_vertex id) overlay.mutations ≡ true) × (result ≡ none))
    ⊎ ((any (deletes_vertex id) overlay.mutations ≡ false)
        × IsNewest (λ v. v.version) (vertex_at id t) (sources overlay base id t) result)

-- A read of a vertex that the transaction deletes returns nothing. Any other returns the newest of
-- the staged versions that are valid at the instant, where there are none the newest of the base's,
-- and nothing exactly where neither has one.
pub get_vertex-IsRead :
    (overlay : TransactionOverlay) (base : List VertexVersion) (id : ℕ) (t : ℤ)
    → IsRead overlay base id t (get_vertex overlay base id t)
unfolding get_vertex
get_vertex-IsRead overlay base id t =
    elim (Bool-cases (any (deletes_vertex id) overlay.mutations)) [
      | inl deleted ↦ inl (deleted, ground arith)
      | inr kept ↦
          let staged = filter (vertex_at id t) (staged_vertices overlay.mutations) in
          let here =
            IsNewest-or_else (λ v. v.version) (vertex_at id t) (staged_vertices overlay.mutations)
              base (max_by_key (λ v. v.version) staged)
              (max_by_key (λ v. v.version) (filter (vertex_at id t) base))
              (max_by_key-IsNewest (λ v. v.version) (vertex_at id t)
                (staged_vertices overlay.mutations))
              (max_by_key-IsNewest (λ v. v.version) (vertex_at id t) base) in
          inr (
            kept,
            subst
                (λ b.
                  IsNewest (λ v. v.version) (vertex_at id t) (sources overlay base id t)
                    (if b
                      then none
                      else or_else (max_by_key (λ v. v.version) staged)
                          (max_by_key (λ v. v.version) (filter (vertex_at id t) base))))
                (sym kept) here,
          )
    ]
