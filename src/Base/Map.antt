-- ===== src/Base/Map.antt =====
-- `BTreeMap<K, V>`: the entries in the order of their keys. `BTreeSet<K>` is a map into `Unit`.
use Prim.Native.Nat.{ℕ}
use mathlib.Core.Path.{◌≡◌, refl, subst}
use mathlib.Core.Logic.{◌↔◌, inl, inr}
use mathlib.Core.Bool.{Bool, true, false, ◌&&◌, ◌||◌}
use mathlib.Core.Option.{Option, none, some}
use mathlib.Core.List.{List, [], ◌∷◌, ◌++◌}
use native.Mathlib.Omega.{arith}
use dtgproxy.Base.Lists.{any}
use dtgproxy.Base.Tests.{ltb, ◌==◌, ==_iff, if◌then◌else◌, is_some, Bool-cases}

-- The bound `K: Ord`: `less` places a key, `same` finds it.
pub record Key {ℓ} (K : Type ℓ) : Type ℓ where
  pub less : K → K → Bool
  pub same : K → K → Bool
  pub same_iff : (a b : K) → (same a b ≡ true) ↔ (a ≡ b)

instance abbrev pub nat_key : Key ℕ
nat_key = record { less = ltb; same = ◌==◌; same_iff = ==_iff }

module _ {ℓ κ} {A : Type ℓ} {B : Type κ} ⦃a : Key A⦄ ⦃b : Key B⦄ where
  abbrev pair_less : A × B → A × B → Bool
  pair_less x y = a.less x.0 y.0 || (a.same x.0 y.0 && b.less x.1 y.1)

  abbrev pair_same : A × B → A × B → Bool
  pair_same x y = a.same x.0 y.0 && b.same x.1 y.1

  pub pair_same_iff : (x y : A × B) → (pair_same x y ≡ true) ↔ (x ≡ y)
  pair_same_iff x y = ground (arith, a.same_iff x.0 y.0, b.same_iff x.1 y.1)

  -- Tuples are compared lexicographically.
  instance abbrev pub pair_key : Key (A × B)
  pair_key = record { less = pair_less; same = pair_same; same_iff = pair_same_iff }

-- `map_or(&[], …)`, and `or_default` of a vector
abbrev pub or_empty {ℓ} : {A : Type ℓ} → Option (List A) → List A
or_empty none = []
or_empty (some xs) = xs

abbrev pub Map {ℓ κ} : Type ℓ → Type κ → Type (ℓ ⊔ κ)
Map K V = List (K × V)

abbrev pub Set {ℓ} : Type ℓ → Type ℓ
Set K = Map K (Unit {0})

module _ {ℓ κ} {K : Type ℓ} {V : Type κ} ⦃o : Key K⦄ where
  unfoldable pub get : K → Map K V → Option V
  get k [] = none
  get k ((j, v) ∷ m) = if o.same j k then some v else get k m

  unfoldable pub insert : K → V → Map K V → Map K V
  insert k v [] = (k, v) ∷ []
  insert k v ((j, w) ∷ m) =
      if o.same j k
      then (k, v) ∷ m
      else if o.less k j
      then (k, v) ∷ (j, w) ∷ m
      else (j, w) ∷ insert k v m

  -- A key stands in one entry at most, so that dropping every entry of the key drops that one.
  unfoldable pub remove : K → Map K V → Map K V
  remove k [] = []
  remove k ((j, w) ∷ m) = let rest = remove k m in if o.same j k then rest else (j, w) ∷ rest

  -- A write through `get_mut`; it changes nothing where the key is missing.
  unfoldable pub replace : K → V → Map K V → Map K V
  replace k v [] = []
  replace k v ((j, w) ∷ m) = if o.same j k then (j, v) ∷ m else (j, w) ∷ replace k v m

  abbrev pub contains_key : K → Map K V → Bool
  contains_key k m = is_some (get k m)

  pub get-insert :
      (k j : K) (v : V) (m : Map K V)
      → get j (insert k v m) ≡ (if o.same k j then some v else get j m)
  unfolding get insert
  get-insert k j v [] = ground arith
  get-insert k j v ((i, w) ∷ m) =
      ground (arith, get-insert k j v m, o.same_iff i k, o.same_iff i j, o.same_iff k j)

  pub get-insert_self : (k : K) (v : V) (m : Map K V) → get k (insert k v m) ≡ some v
  get-insert_self k v m = ground (arith, get-insert k k v m, o.same_iff k k)

  pub get-remove :
      (k j : K) (m : Map K V) → get j (remove k m) ≡ (if o.same k j then none else get j m)
  unfolding get remove
  get-remove k j [] = ground arith
  get-remove k j ((i, w) ∷ m) =
      ground (arith, get-remove k j m, o.same_iff i k, o.same_iff i j, o.same_iff k j)

  pub get-replace :
      (k j : K) (v : V) (m : Map K V)
      → get j (replace k v m)
        ≡ (if o.same k j then (if is_some (get k m) then some v else none) else get j m)
  unfolding get replace
  get-replace k j v [] = ground arith
  get-replace k j v ((i, w) ∷ m) =
      ground (arith, get-replace k j v m, o.same_iff i k, o.same_iff i j, o.same_iff k j)

module _ {ℓ κ} {K : Type ℓ} {A : Type κ} ⦃o : Key K⦄ where
  -- `entry(k).or_default().push(a)`
  abbrev pub push : K → A → Map K (List A) → Map K (List A)
  push k a m = insert k (or_empty (get k m) ++ (a ∷ [])) m

abbrev pub AllValues {ℓ κ μ} : {K : Type ℓ} {V : Type κ} → (V → Type μ) → Map K V → Type μ
AllValues P [] = Unit
AllValues P ((k, v) ∷ m) = P v × AllValues P m

module _ {ℓ κ μ} {K : Type ℓ} {V : Type κ} ⦃o : Key K⦄ (P : V → Type μ) where
  pub AllValues-insert :
      (k : K) (v : V) (m : Map K V) → P v → AllValues P m → AllValues P (insert k v m)
  unfolding insert
  AllValues-insert k v [] p h = (p, h)
  AllValues-insert k v ((j, w) ∷ m) p h = let rest = AllValues-insert k v m p h.1 in ground arith

  pub AllValues-replace :
      (k : K) (v : V) (m : Map K V) → P v → AllValues P m → AllValues P (replace k v m)
  unfolding replace
  AllValues-replace k v [] p h = h
  AllValues-replace k v ((j, w) ∷ m) p h = let rest = AllValues-replace k v m p h.1 in ground arith

  pub AllValues-get : (k : K) (m : Map K V) {v : V} → AllValues P m → get k m ≡ some v → P v
  unfolding get
  AllValues-get k [] h e = cc
  AllValues-get k ((j, w) ∷ m) {v} h e = elim (Bool-cases (o.same j k)) [
    | inl hit ↦ let found : w ≡ v = ground arith in subst P found h.0
    | inr miss ↦ AllValues-get k m h.1 (ground arith)
  ]

module _ {ℓ κ} {K : Type ℓ} {V : Type κ} where
  abbrev pub values : Map K V → List V
  values [] = []
  values ((k, v) ∷ m) = v ∷ values m

  abbrev pub keys : Map K V → List K
  keys [] = []
  keys ((k, v) ∷ m) = k ∷ keys m

module _ {ℓ κ} {K : Type ℓ} {V : Type κ} ⦃o : Key K⦄ (p : V → Bool) where
  -- A new key adds its value to the values.
  pub any-insert :
      (k : K) (v : V) (m : Map K V)
      → get k m ≡ none
      → any p (values (insert k v m)) ≡ (p v || any p (values m))
  unfolding get insert
  any-insert k v [] e = refl
  any-insert k v ((j, w) ∷ m) e = ground (arith, any-insert k v m)

  -- A write that does not change the test of the value changes the test of no other.
  pub any-replace :
      (k : K) (v w : V) (m : Map K V)
      → get k m ≡ some w
      → p v ≡ p w
      → any p (values (replace k v m)) ≡ any p (values m)
  unfolding get replace
  any-replace k v w [] e h = cc
  any-replace k v w ((j, u) ∷ m) e h = ground (arith, any-replace k v w m)

module _ {ℓ κ} {K : Type ℓ} {V : Type κ} (p : V → Bool) where
  pub any-AllValues : (m : Map K V) → AllValues (λ v. p v ≡ false) m → any p (values m) ≡ false
  any-AllValues [] h = refl
  any-AllValues ((k, v) ∷ m) h = ground (arith, any-AllValues m h.1)
