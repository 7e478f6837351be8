-- ===== src/Txn/Codec/RoundTrip.antt =====
-- A command is read back from its bytes.
use dtgproxy.Base.{
  ℕ, ◌^◌, ◌<◌, ◌≡◌, ◌≢◌, refl, ◌∙◌, ◌++◌, arith, length, take, drop, ok, length-append,
}
use dtgproxy.Base.Bytes.{
  Bytes, to_be_bytes, from_be_loop, from_be_bytes, signed64, slice, byte_at, same_bytes_refl,
  from_be_loop-to_be_bytes,
}
use dtgproxy.Kernel.{identifier, transaction_time}
use dtgproxy.Txn.Timestamp.{
  TimestampCommand, start_allocated, commit_reserved, commit_resolved, committed, aborted,
}
use dtgproxy.Txn.Codec.{
  command_prefix, command_of, command_magic, command_version, command_tag, resolution_byte,
  transaction_id, timestamp, encode_command, decode_command,
}

length-command_prefix : (c : TimestampCommand) → length (command_prefix c) ≡ 32
unfolding command_prefix to_be_bytes
length-command_prefix c = refl

prefix_magic :
    (c : TimestampCommand) (rest : Bytes) → take 4 (command_prefix c ++ rest) ≡ command_magic
unfolding command_prefix
prefix_magic c rest = refl

prefix_version :
    (c : TimestampCommand) (rest : Bytes)
    → from_be_bytes (slice 4 6 (command_prefix c ++ rest)) ≡ command_version
unfolding command_prefix from_be_bytes from_be_loop to_be_bytes
prefix_version c rest = refl

take-command_prefix :
    (c : TimestampCommand) (rest : Bytes) → take 32 (command_prefix c ++ rest) ≡ command_prefix c
unfolding command_prefix to_be_bytes
take-command_prefix c rest = refl

drop-command_prefix :
    (c : TimestampCommand) (rest : Bytes) → drop 32 (command_prefix c ++ rest) ≡ rest
unfolding command_prefix to_be_bytes
drop-command_prefix c rest = refl

prefix_tag :
    (c : TimestampCommand) (rest : Bytes) → byte_at 6 (command_prefix c ++ rest) ≡ command_tag c
unfolding command_prefix to_be_bytes
prefix_tag c rest = refl

prefix_resolution :
    (c : TimestampCommand) (rest : Bytes)
    → byte_at 31 (command_prefix c ++ rest) ≡ resolution_byte c
unfolding command_prefix to_be_bytes
prefix_resolution c rest = refl

prefix_id :
    (c : TimestampCommand) (rest : Bytes)
    → transaction_id c < 256 ^ 16
    → from_be_bytes (slice 7 23 (command_prefix c ++ rest)) ≡ transaction_id c
unfolding command_prefix from_be_bytes from_be_loop to_be_bytes
prefix_id c rest lt = from_be_loop-to_be_bytes 16 0 (transaction_id c) lt ∙ omega arith

prefix_timestamp :
    (c : TimestampCommand) (rest : Bytes)
    → timestamp c < 256 ^ 8
    → from_be_bytes (slice 23 31 (command_prefix c ++ rest)) ≡ timestamp c
unfolding command_prefix from_be_bytes from_be_loop to_be_bytes
prefix_timestamp c rest lt = from_be_loop-to_be_bytes 8 0 (timestamp c) lt ∙ omega arith

-- The commands that the authority writes: a transaction id is a `u128` that is not zero, a
-- transaction time an `i64` that is not negative.
pub record IsEncodable (c : TimestampCommand) : Type 0 where
  pub id_set : transaction_id c ≢ 0
  pub id_bound : transaction_id c < 256 ^ 16
  pub time_bound : timestamp c < 2 ^ 63

command_of_lem :
    (c : TimestampCommand)
    → command_of (command_tag c) (resolution_byte c) (transaction_id c) (timestamp c) ≡ ok c
unfolding command_of
command_of_lem (start_allocated id t) = refl
command_of_lem (commit_reserved id t) = refl
command_of_lem (commit_resolved id t committed) = refl
command_of_lem (commit_resolved id t aborted) = refl

identifier_set : (id : ℕ) → id ≢ 0 → identifier id ≡ ok id
unfolding identifier
identifier_set id h = ground arith

time_of_bits : (t : ℕ) → t < 2 ^ 63 → transaction_time (signed64 t) ≡ ok t
unfolding transaction_time signed64
time_of_bits t lt = ground arith

module _ (blake3 : Bytes → Bytes)
    (length-blake3 : (bytes : Bytes) → length (blake3 bytes) ≡ 32) where
  -- Decoding the bytes of a command gives the command back, where its transaction id is a 128-bit
  -- number other than zero, its time is below 2 ^ 63 and a digest has 32 bytes.
  pub decode-encode_command :
      (c : TimestampCommand)
      → IsEncodable c
      → decode_command blake3 (encode_command blake3 c) ≡ ok c
  unfolding decode_command encode_command
  decode-encode_command c h =
      rw
        (
          length-append,
          length-command_prefix,
          length-blake3,
          prefix_magic,
          prefix_version,
          take-command_prefix,
          drop-command_prefix,
          same_bytes_refl,
          prefix_id c _ h.id_bound,
          identifier_set _ h.id_set,
          prefix_timestamp c _ (omega (arith, h.time_bound)),
          time_of_bits _ h.time_bound,
          prefix_tag,
          prefix_resolution,
        )
        (command_of_lem c)
