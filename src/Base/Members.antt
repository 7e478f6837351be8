-- ===== src/Base/Members.antt =====
-- Membership in a list.
use mathlib.Core.Path.{◌≡◌, refl, sym, subst}
use mathlib.Core.Logic.{◌⊎◌, inl, inr}
use mathlib.Core.Bool.{Bool, true}
use native.Mathlib.Omega.{arith}
use mathlib.Core.List.{List, [], ◌∷◌, ◌++◌}
use dtgproxy.Base.Tests.{if_intro}
use dtgproxy.Base.Lists.{All, any, flat_map, place_by, sort_by}

module _ {A : Type 0} where
  abbrev pub IsIn : A → List A → Type 0
  IsIn m [] = ⊥
  IsIn m (x ∷ xs) = (x ≡ m) ⊎ IsIn m xs

  -- A member of a list in two parts is a member of one.
  pub IsIn-append : (m : A) (xs ys : List A) → IsIn m (xs ++ ys) → IsIn m xs ⊎ IsIn m ys
  IsIn-append m [] ys i = inr i
  IsIn-append m (x ∷ xs) ys (inl same) = inl (inl same)
  IsIn-append m (x ∷ xs) ys (inr later) = elim (IsIn-append m xs ys later) [
    | inl left ↦ inl (inr left)
    | inr right ↦ inr right
  ]

  -- A member that passes a test makes the test of the list pass.
  pub any-IsIn : (p : A → Bool) (m : A) (xs : List A) → IsIn m xs → p m ≡ true → any p xs ≡ true
  any-IsIn p m [] i h = absurd i
  any-IsIn p m (x ∷ xs) (inl same) h =
      let first : p x ≡ true = subst (λ y. p y ≡ true) (sym same) h in ground arith
  any-IsIn p m (x ∷ xs) (inr later) h = ground (arith, any-IsIn p m xs later h)

  IsIn-place_by :
      (less : A → A → Bool) (m x : A) (xs : List A) → IsIn m (place_by less x xs) → IsIn m (x ∷ xs)
  IsIn-place_by less m x [] i = i
  IsIn-place_by less m x (y ∷ ys) i =
      if_intro (λ l. IsIn m l → IsIn m (x ∷ y ∷ ys)) (less y x) (y ∷ place_by less x ys)
        (x ∷ y ∷ ys)
        (λ _ j. elim j [
          | inl same ↦ inr (inl same)
          | inr later ↦ elim (IsIn-place_by less m x ys later) [
            | inl same ↦ inl same
            | inr rest ↦ inr (inr rest)
          ]
        ])
        (λ _ j. j) i

  -- Sorting brings no element in.
  pub IsIn-sort_by :
      (less : A → A → Bool) (m : A) (xs : List A) → IsIn m (sort_by less xs) → IsIn m xs
  IsIn-sort_by less m [] i = i
  IsIn-sort_by less m (x ∷ xs) i = elim (IsIn-place_by less m x (sort_by less xs) i) [
    | inl same ↦ inl same
    | inr rest ↦ inr (IsIn-sort_by less m xs rest)
  ]

  pub All-IsIn {κ} : (P : A → Type κ) (m : A) (xs : List A) → All P xs → IsIn m xs → P m
  All-IsIn P m [] h i = absurd i
  All-IsIn P m (x ∷ xs) h (inl same) = subst P same h.0
  All-IsIn P m (x ∷ xs) h (inr later) = All-IsIn P m xs h.1 later

module _ {A B : Type 0} where
  pub IsIn-flat_map :
      (b : B) (f : A → List B) (xs : List A)
      → IsIn b (flat_map f xs)
      → (x : A) × IsIn x xs × IsIn b (f x)
  IsIn-flat_map b f [] i = absurd i
  IsIn-flat_map b f (x ∷ xs) i = elim (IsIn-append b (f x) (flat_map f xs) i) [
    | inl first ↦ (x, inl refl, first)
    | inr rest ↦ let (y, within, there) = IsIn-flat_map b f xs rest in (y, inr within, there)
  ]
