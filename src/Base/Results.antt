-- ===== src/Base/Results.antt =====
-- Rust's `Result<A, E>` with `?` as bind, and checked arithmetic on machine integers.
use Prim.Native.Nat.{ℕ, ◌+◌, ◌-◌, ◌^◌}
use mathlib.Core.Path.{◌≡◌, refl, ap, ◌∙◌}
use mathlib.Core.Logic.{◌⊎◌, inl, inr}
use mathlib.Core.Bool.{Bool, true, false}
use mathlib.Core.Option.{Option, none, some}
use dtgproxy.Base.Tests.{ltb, if◌then◌else◌}

pub data Result {ℓ κ} (E : Type ℓ) (A : Type κ) : Type (ℓ ⊔ κ) where
  ok : A → Result E A
  err : E → Result E A

infixl 5 ◌>>=◌ ◌>>◌
abbrev pub ◌>>=◌ {ℓ κ μ} :
    {E : Type ℓ} {A : Type κ} {B : Type μ} → Result E A → (A → Result E B) → Result E B
err e >>= rest = err e
ok value >>= rest = rest value

abbrev pub ◌>>◌ {ℓ κ} : {E : Type ℓ} {B : Type κ} → Result E (Unit {0}) → Result E B → Result E B
m >> k = m >>= λ _. k

-- `if bad { return Err(e) }`
abbrev pub reject {ℓ} : {E : Type ℓ} → Bool → E → Result E (Unit {0})
reject true e = err e
reject false e = ok tt

abbrev pub ok_or {ℓ κ} : {E : Type ℓ} {A : Type κ} → Option A → E → Result E A
ok_or none e = err e
ok_or (some a) e = ok a

abbrev pub map_err {ℓ κ μ} : {E : Type ℓ} {F : Type κ} {A : Type μ} → Result E A → F → Result F A
map_err (ok a) f = ok a
map_err (err e) f = err f

-- `?` that went on: the first part succeeded, and so did the rest on its value.
pub >>=-eq-ok {ℓ κ μ} :
    {E : Type ℓ} {A : Type κ} {B : Type μ} (first : Result E A) (rest : A → Result E B) {out : B}
    → (first >>= rest) ≡ ok out
    → (value : A) × (first ≡ ok value) × (rest value ≡ ok out)
>>=-eq-ok (err e) rest failed = cc
>>=-eq-ok (ok value) rest went = (value, refl, went)

-- A first part that succeeds, and a rest that does on its value.
pub >>=-ok {ℓ κ μ} :
    {E : Type ℓ} {A : Type κ} {B : Type μ} (first : Result E A) (rest : A → Result E B) {value : A}
    → first ≡ ok value
    → ((out : B) × (rest value ≡ ok out))
    → (out : B) × ((first >>= rest) ≡ ok out)
>>=-ok (err e) rest went after = let no_way : ⊥ = cc in absurd no_way
>>=-ok (ok a) rest {value} went after =
    let same : a ≡ value = cc in (after.0, ap rest same ∙ after.1)

pub >>=-cong {ℓ κ μ} :
    {E : Type ℓ} {A : Type κ} {B : Type μ} (first : Result E A) (f g : A → Result E B)
    → ((a : A) → f a ≡ g a)
    → (first >>= f) ≡ (first >>= g)
>>=-cong (err e) f g same = refl
>>=-cong (ok a) f g same = same a

abbrev pub i64_max : ℕ
i64_max = 2 ^ 63 - 1

abbrev pub u64_max : ℕ
u64_max = 2 ^ 64 - 1

-- `a.checked_add(b)` for operands that are not negative, in a type whose largest value is given.
abbrev pub checked_add : ℕ → ℕ → ℕ → Option ℕ
checked_add largest a b = if ltb largest (a + b) then none else some (a + b)

pub Result-cases {ℓ κ} :
    {E : Type ℓ} {A : Type κ} (m : Result E A) → ((a : A) × (m ≡ ok a)) ⊎ ((e : E) × (m ≡ err e))
Result-cases (ok a) = inl (a, refl)
Result-cases (err e) = inr (e, refl)
