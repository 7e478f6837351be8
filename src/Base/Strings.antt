-- ===== src/Base/Strings.antt =====
-- `&str`: its order, its equality, and the tests of characters that the code applies to it.
use Prim.Native.Nat.{ℕ, zero, suc, ◌+◌, ◌/◌, ◌%◌}
use Prim.Native.Char.{code}
use Prim.Native.String.{String, ◌++◌ as ◌++ₛ◌}
use text.Mathlib.Text.{◌==◌ as ◌==ₛ◌, is_lt}
use text.Mathlib.TextEquality.{eq_iff}
use mathlib.Core.Path.{◌≡◌}
use mathlib.Core.Logic.{inl, inr}
use mathlib.Core.Bool.{Bool, true, ◌&&◌, ◌||◌}
use mathlib.Core.Option.{Option, none, some}
use mathlib.Core.List.{List, [], ◌∷◌}
use native.Mathlib.Omega.{arith}
use dtgproxy.Base.Tests.{leb, ltb, ◌==◌, Bool-cases, if◌then◌else◌}
use dtgproxy.Base.Map.{Key}

-- The characters of a text, as numbers. `String` has its own `[]` and `∷`.
abbrev pub chars : String → List ℕ
chars String.[] = []
chars (String.◌∷◌ c s) = code c ∷ chars s

abbrev pub is_empty : String → Bool
is_empty s = s ==ₛ ""

-- `char::is_whitespace`: the characters with the Unicode property White_Space.
abbrev pub is_whitespace : ℕ → Bool
is_whitespace c =
    (leb 9 c && leb c 13)
    || c == 32
    || c == 133
    || c == 160
    || c == 5760
    || (leb 8192 c && leb c 8202)
    || c == 8232
    || c == 8233
    || c == 8239
    || c == 8287
    || c == 12288

abbrev pub strip_prefix : List ℕ → List ℕ → Option (List ℕ)
strip_prefix [] xs = some xs
strip_prefix (p ∷ ps) [] = none
strip_prefix (p ∷ ps) (x ∷ xs) = if p == x then strip_prefix ps xs else none

abbrev before : ℕ → Option (List ℕ × List ℕ) → Option (List ℕ × List ℕ)
before x none = none
before x (some (front, back)) = some (x ∷ front, back)

-- `str::split_once` for a separator that is not empty: at its first occurrence.
abbrev pub split_once : List ℕ → List ℕ → Option (List ℕ × List ℕ)
split_once separator [] = none
split_once separator (x ∷ xs) = elim (strip_prefix separator (x ∷ xs)) [
  | some back ↦ some ([], back)
  | none ↦ before x (split_once separator xs)
]

instance abbrev pub text_key : Key String
text_key = record {
  less = λ a b. is_lt (Prim.Native.String.compare a b);
  same = ◌==ₛ◌;
  same_iff = eq_iff;
}

pub String-discrete : Discrete String
String-discrete a b = elim (Bool-cases (a ==ₛ b)) [
  | inl hit ↦ yes ((eq_iff a b).0 hit)
  | inr miss ↦ no (λ e. let h : (a ==ₛ b) ≡ true = (eq_iff a b).1 e in ground arith)
]

-- A number in decimal digits: the first argument bounds how many there are.
abbrev digits : ℕ → ℕ → String
digits zero n = ""
digits (suc fuel) n =
    let rest = digits fuel (n / 10) in
    (if ltb n 10 then "" else rest) ++ₛ Prim.Native.String.slice "0123456789" (n % 10) (n % 10 + 1)

abbrev pub decimal : ℕ → String
decimal n = digits (n + 1) n
