-- ===== src/Base/Bytes.antt =====
-- Bytes, and integers as bytes in big-endian order.
use Prim.Native.Nat.{ℕ, zero, suc, ◌+◌, ◌-◌, ◌*◌, ◌/◌, ◌%◌, ◌^◌, ◌<◌}
use native.Mathlib.Nat.{pow-suc}
use native.Mathlib.Omega.{arith}
use mathlib.Core.Path.{◌≡◌, refl, ap, ◌∙◌}
use mathlib.Core.Bool.{Bool, true, false, ◌&&◌}
use mathlib.Core.List.{List, [], ◌∷◌, ◌++◌}
use dtgproxy.Base.Tests.{ltb, ◌==◌, if◌then◌else◌}
use dtgproxy.Base.Lists.{length, take, drop, length-append}
use dtgproxy.Base.Int.{ℤ, pos, negsuc}

abbrev pub Bytes : Type 0
Bytes = List ℕ

-- `to_be_bytes` of an integer of the given number of bytes; for an `i64` that is not negative they
-- are those of the `u64`.
unfoldable pub to_be_bytes : ℕ → ℕ → Bytes
to_be_bytes zero n = []
to_be_bytes (suc w) n = to_be_bytes w (n / 256) ++ (n % 256) ∷ []

unfoldable pub from_be_loop : ℕ → Bytes → ℕ
from_be_loop acc [] = acc
from_be_loop acc (b ∷ bytes) = from_be_loop (acc * 256 + b) bytes

unfoldable pub from_be_bytes : Bytes → ℕ
from_be_bytes bytes = from_be_loop 0 bytes

-- `i64::from_be_bytes`, from the bit pattern.
unfoldable pub signed64 : ℕ → ℤ
signed64 n = if ltb n (2 ^ 63) then pos n else negsuc (2 ^ 64 - n - 1)

abbrev pub same_bytes : Bytes → Bytes → Bool
same_bytes [] [] = true
same_bytes (x ∷ xs) (y ∷ ys) = x == y && same_bytes xs ys
same_bytes _ _ = false

abbrev pub slice : ℕ → ℕ → Bytes → Bytes
slice from to bytes = take (to - from) (drop from bytes)

-- `bytes[i]` where the length has been checked.
abbrev pub byte_at : ℕ → Bytes → ℕ
byte_at i bytes = elim (drop i bytes) [ [] ↦ 0 | b ∷ _ ↦ b ]

from_be_loop-append :
    (acc : ℕ) (bytes : Bytes) (b : ℕ)
    → from_be_loop acc (bytes ++ b ∷ []) ≡ from_be_loop acc bytes * 256 + b
unfolding from_be_loop
from_be_loop-append acc [] b = refl
from_be_loop-append acc (a ∷ bytes) b = from_be_loop-append (acc * 256 + a) bytes b

pub from_be_loop-to_be_bytes :
    (w acc n : ℕ) → n < 256 ^ w → from_be_loop acc (to_be_bytes w n) ≡ acc * 256 ^ w + n
unfolding from_be_loop to_be_bytes
from_be_loop-to_be_bytes zero acc n lt = omega arith
from_be_loop-to_be_bytes (suc w) acc n lt =
    let power : 256 ^ suc w ≡ 256 ^ w * 256 = pow-suc 256 w in
    let high : n / 256 < 256 ^ w = omega arith in
    from_be_loop-append acc (to_be_bytes w (n / 256)) (n % 256)
    ∙ (ap (λ (v : ℕ). v * 256 + n % 256) (from_be_loop-to_be_bytes w acc (n / 256) high)
        ∙ rw power (omega arith))

pub same_bytes_refl : (bytes : Bytes) → same_bytes bytes bytes ≡ true
same_bytes_refl [] = refl
same_bytes_refl (b ∷ bytes) = ground (arith, same_bytes_refl bytes)

pub length-to_be_bytes : (w n : ℕ) → length (to_be_bytes w n) ≡ w
unfolding to_be_bytes
length-to_be_bytes zero n = refl
length-to_be_bytes (suc w) n = omega (
  arith,
  length-to_be_bytes w (n / 256),
  length-append {0} (to_be_bytes w (n / 256)) ((n % 256) ∷ []),
)
