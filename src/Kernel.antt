-- ===== src/Kernel.antt =====
-- crates/kernel/dtg-kernel/src: the checked constructors that every crate builds on.
-- A newtype over a `u64`, `u128` or a checked `i64` is the number that it holds.
pub mod Intervals
pub mod Messages
use dtgproxy.Base.{
  ℕ, Bool, ◌&&◌, Option, none, some, arith, ◌==◌, if◌then◌else◌, ℤ, pos, negsuc, ltb_ℤ, Result, ok,
  err,
}

pub data KernelError : Type 0 where
  zero_identifier : KernelError
  negative_transaction_time : ℤ → KernelError
  invalid_interval : ℤ → ℤ → KernelError

-- `ClusterId::new` to `BackendGeneration::new`, and `TransactionId::new`.
unfoldable pub identifier : ℕ → Result KernelError ℕ
identifier value = if value == 0 then err zero_identifier else ok value

abbrev pub TransactionTime : Type 0
TransactionTime = ℕ

-- An `i64` that is not negative is kept as a number.
unfoldable pub transaction_time : ℤ → Result KernelError TransactionTime
transaction_time (pos n) = ok n
transaction_time (negsuc n) = err (negative_transaction_time (negsuc n))

pub record ValidInterval : Type 0 where
  pub start : ℤ
  pub end : ℤ

unfoldable pub valid_interval : ℤ → ℤ → Result KernelError ValidInterval
valid_interval start end =
    if ltb_ℤ start end
    then ok (record { start = start; end = end })
    else err (invalid_interval start end)

unfoldable pub overlaps : ValidInterval → ValidInterval → Bool
overlaps a b = ltb_ℤ a.start b.end && ltb_ℤ b.start a.end
