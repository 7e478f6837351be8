-- ===== src/Base/Utf8.antt =====
-- UTF-8 as `str::as_bytes` writes it and `String::from_utf8` reads it.
use Prim.Native.Nat.{ℕ, zero, suc, ◌+◌, ◌-◌, ◌*◌, ◌/◌, ◌%◌, ◌<◌, ◌≤◌, compare, Ordering}
use Prim.Native.Char.{Char, char, code, IsLt}
use Prim.Native.String.{String}
use native.Mathlib.Omega.{arith}
use text.Mathlib.TextEquality.{Char-path}
use mathlib.Core.Path.{◌≡◌, refl, ap, ◌∙◌}
use mathlib.Core.Bool.{Bool, ◌&&◌}
use mathlib.Core.Option.{Option, none, some}
use mathlib.Core.List.{[], ◌∷◌, ◌++◌}
use dtgproxy.Base.Tests.{ltb, leb, if◌then◌else◌}
use dtgproxy.Base.Lists.{length, length-append}
use dtgproxy.Base.Bytes.{Bytes}

unfoldable pub utf8_of : ℕ → Bytes
utf8_of n =
    if ltb n 128
    then n ∷ []
    else if ltb n 2048
    then (192 + n / 64) ∷ (128 + n % 64) ∷ []
    else if ltb n 65536
    then (224 + n / 4096) ∷ (128 + n / 64 % 64) ∷ (128 + n % 64) ∷ []
    else (240 + n / 262144) ∷ (128 + n / 4096 % 64) ∷ (128 + n / 64 % 64) ∷ (128 + n % 64) ∷ []

unfoldable pub as_bytes : String → Bytes
as_bytes String.[] = []
as_bytes (String.◌∷◌ c s) = utf8_of (code c) ++ as_bytes s

abbrev is_tail : ℕ → Bool
is_tail b = leb 128 b && ltb b 192

-- One character of two, three or four bytes, if it is not written longer than it has to be.
abbrev two : ℕ → Bytes → Option (ℕ × Bytes)
two a (b ∷ rest) =
    if is_tail b && leb 2 (a - 192) then some ((a - 192) * 64 + (b - 128), rest) else none
two a [] = none

abbrev checked : ℕ → ℕ → Bytes → Option (ℕ × Bytes)
checked least n rest = if leb least n then some (n, rest) else none

abbrev three : ℕ → Bytes → Option (ℕ × Bytes)
three a (b ∷ c ∷ rest) =
    if is_tail b && is_tail c
    then checked 2048 ((a - 224) * 4096 + ((b - 128) * 64 + (c - 128))) rest
    else none
three a _ = none

abbrev four : ℕ → Bytes → Option (ℕ × Bytes)
four a (b ∷ c ∷ d ∷ rest) =
    if is_tail b && (is_tail c && is_tail d)
    then checked 65536 ((a - 240) * 262144 + ((b - 128) * 4096 + ((c - 128) * 64 + (d - 128)))) rest
    else none
four a _ = none

unfoldable pub next_code : Bytes → Option (ℕ × Bytes)
next_code [] = none
next_code (a ∷ rest) =
    if ltb a 128
    then some (a, rest)
    else if ltb a 192
    then none
    else if ltb a 224
    then two a rest
    else if ltb a 240
    then three a rest
    else if ltb a 248
    then four a rest
    else none

pub next_code-utf8_of :
    (n : ℕ) (rest : Bytes) → n < 1114112 → next_code (utf8_of n ++ rest) ≡ some (n, rest)
unfolding next_code utf8_of
next_code-utf8_of n rest h = ground arith

-- `IsScalar` of the character library is three comparisons under these two functions.
abbrev BothLt : Ordering → Ordering → Type 0
BothLt Ordering.lt o = IsLt o
BothLt Ordering.eq _ = ⊥
BothLt Ordering.gt _ = ⊥

abbrev Scalar : Ordering → Ordering → Ordering → Type 0
Scalar Ordering.lt _ _ = Unit
Scalar Ordering.eq o p = BothLt o p
Scalar Ordering.gt o p = BothLt o p

dec_lt_of : (o : Ordering) → Dec (IsLt o)
dec_lt_of Ordering.lt = yes tt
dec_lt_of Ordering.eq = no (λ h. h)
dec_lt_of Ordering.gt = no (λ h. h)

dec_both : (o p : Ordering) → Dec (BothLt o p)
unfolding dec_lt_of
dec_both Ordering.lt p = dec_lt_of p
dec_both Ordering.eq p = no (λ h. h)
dec_both Ordering.gt p = no (λ h. h)

dec_scalar : (o p q : Ordering) → Dec (Scalar o p q)
unfolding dec_both
dec_scalar Ordering.lt p q = yes tt
dec_scalar Ordering.eq p q = dec_both p q
dec_scalar Ordering.gt p q = dec_both p q

-- The character of a number, if it is a Unicode Scalar value.
unfoldable pub to_char : ℕ → Option Char
unfolding dec_scalar
to_char n = elim (dec_scalar (compare n 55296) (compare 57343 n) (compare n 1114112)) [
  | yes p ↦ some (char n p)
  | no _ ↦ none
]

pub to_char-code : (c : Char) → to_char (code c) ≡ some c
unfolding to_char
to_char-code (char n p) =
    elim (dec_scalar (compare n 55296) (compare 57343 n) (compare n 1114112))
      as (λ d. (elim d [ yes q ↦ some (char n q) | no _ ↦ none ]) ≡ some (char n p)) [
        | yes q ↦ ap some (Char-path (char n q) (char n p) refl)
        | no k ↦ absurd (k p)
      ]

scalar_bound :
    (n : ℕ) → Scalar (compare n 55296) (compare 57343 n) (compare n 1114112) → n < 1114112
scalar_bound n h = ground arith

code_bound : (c : Char) → code c < 1114112
code_bound (char n p) = scalar_bound n p

abbrev cons_char : Option Char → Option String → Option String
cons_char (some c) (some s) = some (String.◌∷◌ c s)
cons_char _ _ = none

-- The first argument bounds how many characters there are.
unfoldable pub read_utf8 : ℕ → Bytes → Option String
read_utf8 fuel [] = some ""
read_utf8 zero (b ∷ bytes) = none
read_utf8 (suc fuel) (b ∷ bytes) = elim (next_code (b ∷ bytes)) [
  | none ↦ none
  | some (n, rest) ↦ cons_char (to_char n) (read_utf8 fuel rest)
]

-- `String::from_utf8`
abbrev pub from_utf8 : Bytes → Option String
from_utf8 bytes = read_utf8 (length bytes) bytes

utf8_of_nonempty : (n : ℕ) (bytes : Bytes) → 0 < length (utf8_of n ++ bytes)
unfolding utf8_of
utf8_of_nonempty n bytes = ground arith

length-utf8_of : (n : ℕ) → 0 < length (utf8_of n)
unfolding utf8_of
length-utf8_of n = ground arith

next_code-nil : (n : ℕ) (rest : Bytes) → next_code [] ≡ some (n, rest) → ⊥
unfolding next_code
next_code-nil n rest e = cc

read_next :
    (fuel n : ℕ) (bytes rest : Bytes)
    → next_code bytes ≡ some (n, rest)
    → read_utf8 (suc fuel) bytes ≡ cons_char (to_char n) (read_utf8 fuel rest)
unfolding read_utf8
read_next fuel n [] rest e = absurd (next_code-nil n rest e)
read_next fuel n (b ∷ bytes) rest e = rw (e, read_utf8)

read_utf8-as_bytes :
    (fuel : ℕ) (s : String) → length (as_bytes s) ≤ fuel → read_utf8 fuel (as_bytes s) ≡ some s
unfolding as_bytes
read_utf8-as_bytes fuel String.[] h = unfold read_utf8 in refl
read_utf8-as_bytes zero (String.◌∷◌ c s) h =
    absurd (omega (arith, utf8_of_nonempty (code c) (as_bytes s)))
read_utf8-as_bytes (suc fuel) (String.◌∷◌ c s) h =
    let room : length (as_bytes s) ≤ fuel =
      omega (arith, length-append {0} (utf8_of (code c)) (as_bytes s), length-utf8_of (code c)) in
    read_next fuel (code c) (utf8_of (code c) ++ as_bytes s) (as_bytes s)
      (next_code-utf8_of (code c) (as_bytes s) (code_bound c))
    ∙ rw (to_char-code c, read_utf8-as_bytes fuel s room)

pub from_utf8-as_bytes : (s : String) → from_utf8 (as_bytes s) ≡ some s
from_utf8-as_bytes s = read_utf8-as_bytes (length (as_bytes s)) s (omega arith)
