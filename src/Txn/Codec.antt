-- ===== src/Txn/Codec.antt =====
-- timestamp.rs: `encode_command` and `decode_command`, the bytes of a command in the log.
-- `blake3` is the digest of a dependency. A hasher that is fed in parts digests their
-- concatenation, so the model concatenates.
pub mod RoundTrip
use dtgproxy.Base.{
  ℕ, zero, suc, ◌+◌, ◌-◌, ◌*◌, ◌/◌, ◌%◌, ◌^◌, Bool, true, false, ◌&&◌, ◌||◌, not, List, [], ◌∷◌,
  ◌++◌, ltb, ◌==◌, if◌then◌else◌, length, take, drop, ℤ, pos, negsuc, Result, ok, err, ◌>>=◌, ◌>>◌,
  reject, map_err,
}
use dtgproxy.Base.Bytes.{
  Bytes, to_be_bytes, from_be_loop, from_be_bytes, signed64, same_bytes, slice, byte_at,
}
use dtgproxy.Kernel.{identifier, transaction_time}
use dtgproxy.Txn.{TxnError, corrupt_recovery}
use dtgproxy.Txn.Timestamp.{
  TimestampCommand, start_allocated, commit_reserved, commit_resolved, CommitResolution, committed,
  aborted,
}

abbrev pub command_magic : Bytes
command_magic = b'D' ∷ b'T' ∷ b'G' ∷ b'T' ∷ []

abbrev pub command_version : ℕ
command_version = 1

abbrev pub command_prefix_bytes : ℕ
command_prefix_bytes = 32

abbrev pub command_bytes : ℕ
command_bytes = command_prefix_bytes + 32

-- b"dtg-timestamp-command-v1"
abbrev pub digest_context : Bytes
digest_context =
    b'd' ∷ b't' ∷ b'g' ∷ b'-' ∷ b't' ∷ b'i' ∷ b'm' ∷ b'e' ∷ b's' ∷ b't' ∷ b'a' ∷ b'm' ∷ b'p' ∷ b'-'
    ∷ b'c' ∷ b'o' ∷ b'm' ∷ b'm' ∷ b'a' ∷ b'n' ∷ b'd' ∷ b'-' ∷ b'v' ∷ b'1' ∷ []

abbrev pub command_tag : TimestampCommand → ℕ
command_tag (start_allocated _ _) = 1
command_tag (commit_reserved _ _) = 2
command_tag (commit_resolved _ _ _) = 3

abbrev pub resolution_byte : TimestampCommand → ℕ
resolution_byte (commit_resolved _ _ committed) = 1
resolution_byte (commit_resolved _ _ aborted) = 2
resolution_byte _ = 0

abbrev pub transaction_id : TimestampCommand → ℕ
transaction_id (start_allocated id _) = id
transaction_id (commit_reserved id _) = id
transaction_id (commit_resolved id _ _) = id

abbrev pub timestamp : TimestampCommand → ℕ
timestamp (start_allocated _ t) = t
timestamp (commit_reserved _ t) = t
timestamp (commit_resolved _ t _) = t

pub command_prefix : TimestampCommand → Bytes
command_prefix c =
    command_magic
    ++ (to_be_bytes 2 command_version
        ++ (command_tag c
            ∷ (to_be_bytes 16 (transaction_id c)
                ++ (to_be_bytes 8 (timestamp c) ++ (resolution_byte c ∷ [])))))

pub command_of : ℕ → ℕ → ℕ → ℕ → Result TxnError TimestampCommand
command_of tag resolution id t =
    if tag == 1 && resolution == 0
    then ok (start_allocated id t)
    else if tag == 2 && resolution == 0
    then ok (commit_reserved id t)
    else if tag == 3 && resolution == 1
    then ok (commit_resolved id t committed)
    else if tag == 3 && resolution == 2
    then ok (commit_resolved id t aborted)
    else err corrupt_recovery

module _ (blake3 : Bytes → Bytes) where
  pub encode_command : TimestampCommand → Bytes
  encode_command c = command_prefix c ++ blake3 (digest_context ++ command_prefix c)

  pub decode_command : Bytes → Result TxnError TimestampCommand
  decode_command bytes = do
    reject
        (not (length bytes == command_bytes)
          || not (same_bytes (take 4 bytes) command_magic)
          || not (from_be_bytes (slice 4 6 bytes) == command_version))
        corrupt_recovery
    reject
        (not (
          same_bytes (blake3 (digest_context ++ take command_prefix_bytes bytes))
            (drop command_prefix_bytes bytes)))
        corrupt_recovery
    id ← map_err (identifier (from_be_bytes (slice 7 23 bytes))) corrupt_recovery
    t ← map_err (transaction_time (signed64 (from_be_bytes (slice 23 31 bytes)))) corrupt_recovery
    command_of (byte_at 6 bytes) (byte_at 31 bytes) id t
