-- ===== src/Control/Reference.antt =====
-- What the constructors of crates/execution/dtg-control/src/binding.rs accept.
use dtgproxy.Base.{
  ℕ, ◌≡◌, ◌≢◌, ap, subst, inl, inr, true, false, List, [], ◌∷◌, ◌++◌, any, all, arith, String, some,
  Option-cases,
}
use dtgproxy.Base.Strings.{chars, is_whitespace, strip_prefix, split_once}
use dtgproxy.Control.{in_scheme, is_external_reference, accepts_parts}

strip_prefix_lem : (front xs back : List ℕ) → strip_prefix front xs ≡ some back → front ++ back ≡ xs
strip_prefix_lem [] xs back e = ground arith
strip_prefix_lem (p ∷ front) [] back e = cc
strip_prefix_lem (p ∷ front) (x ∷ xs) back e = ground (arith, strip_prefix_lem front xs back)

-- The two parts and the separator are the text.
split_once_lem :
    (separator xs front back : List ℕ)
    → split_once separator xs ≡ some (front, back)
    → front ++ (separator ++ back) ≡ xs
split_once_lem separator [] front back e = cc
split_once_lem separator (x ∷ xs) front back e =
    elim (Option-cases (strip_prefix separator (x ∷ xs))) [
      | inl later ↦ elim (Option-cases (split_once separator xs)) [
        | inl missing ↦ let no_way : ⊥ = ground arith in absurd no_way
        | inr ((front', back'), found) ↦
            let rest = split_once_lem separator xs front' back' found in
            let one : x ∷ front' ≡ front = ground arith in
            let two : back' ≡ back = ground arith in
            subst (λ f. f ++ (separator ++ back) ≡ x ∷ xs) one
              (subst (λ b. x ∷ (front' ++ (separator ++ b)) ≡ x ∷ xs) two (ap (◌∷◌ x) rest))
      ]
      | inr (rest, here) ↦
          let one : [] ≡ front = ground arith in
          let two : rest ≡ back = ground arith in
          subst (λ f. f ++ (separator ++ back) ≡ x ∷ xs) one
            (subst (λ b. separator ++ b ≡ x ∷ xs) two
              (strip_prefix_lem separator (x ∷ xs) rest here))
    ]

pub record IsReference (value : String) : Type 0 where
  pub scheme : List ℕ
  pub target : List ℕ
  pub whole : scheme ++ (chars "://" ++ target) ≡ chars value
  pub scheme_filled : scheme ≢ []
  pub target_filled : target ≢ []
  pub scheme_plain : all in_scheme scheme ≡ true
  pub target_solid : any is_whitespace target ≡ false

accepts_parts_lem :
    (scheme target : List ℕ)
    → accepts_parts (some (scheme, target)) ≡ true
    → (scheme ≢ [])
      × (target ≢ [])
      × (all in_scheme scheme ≡ true)
      × (any is_whitespace target ≡ false)
accepts_parts_lem [] [] e = cc
accepts_parts_lem [] (y ∷ target) e = cc
accepts_parts_lem (x ∷ scheme) [] e = cc
accepts_parts_lem (x ∷ scheme) (y ∷ target) e = (λ z. cc, λ z. cc, ground arith, ground arith)

-- A credential that is accepted is a scheme, "://" and a target, neither part empty, the scheme of
-- lower-case letters, digits and "+-." only, the target without whitespace.
pub is_external_reference-IsReference :
    (value : String) → is_external_reference value ≡ true → IsReference value
unfolding is_external_reference
is_external_reference-IsReference value e =
    elim (Option-cases (split_once (chars "://") (chars value))) [
      | inl missing ↦ let no_way : ⊥ = ground arith in absurd no_way
      | inr ((scheme, target), found) ↦
          let accepted : accepts_parts (some (scheme, target)) ≡ true =
            subst (λ o. accepts_parts o ≡ true) found e in
          let (one, two, three, four) = accepts_parts_lem scheme target accepted in
          record {
            scheme = scheme;
            target = target;
            whole = split_once_lem (chars "://") (chars value) scheme target found;
            scheme_filled = one;
            target_filled = two;
            scheme_plain = three;
            target_solid = four;
          }
    ]
