-- ===== src/Kernel/Messages.antt =====
-- crates/kernel/dtg-kernel/src/error.rs: the text of an error.
use Prim.Native.String.{String, ◌++◌}
use dtgproxy.Base.{suc, ℤ, pos, negsuc}
use dtgproxy.Base.Strings.{decimal}
use dtgproxy.Kernel.{KernelError, zero_identifier, negative_transaction_time, invalid_interval}

abbrev signed_decimal : ℤ → String
signed_decimal (pos n) = decimal n
signed_decimal (negsuc n) = "-" ++ decimal (suc n)

unfoldable pub display_kernel : KernelError → String
display_kernel zero_identifier = "identifier must be nonzero"
display_kernel (negative_transaction_time value) =
    "transaction time must be nonnegative: " ++ signed_decimal value
display_kernel (invalid_interval start end) =
    "interval start must precede end: " ++ (signed_decimal start ++ (" >= " ++ signed_decimal end))
