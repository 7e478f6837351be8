-- ===== src/Shard/Durable.antt =====
-- What a shard keeps as metadata of its replica: the names of its entries, the index of the active
-- intents, and receipts (crates/execution/dtg-shard/src/state_machine.rs).
pub mod Index
pub mod States
use native.Mathlib.Decide.{ℕ_discrete}
use Prim.Native.String.{◌++◌ as ◌++ₛ◌}
use dtgproxy.Base.{
  ℕ, zero, suc, ◌+◌, ◌-◌, ◌*◌, ◌/◌, ◌%◌, Bool, false, not, ◌&&◌, ◌||◌, String, List, [], ◌∷◌, ◌++◌,
  length, take, drop, is_nil, is_some, is_dec, ltb, leb, ◌==◌, if◌then◌else◌, Option, none, some,
  Result, ok, err, ok_or, ◌>>=◌, ◌>>◌,
}
use dtgproxy.Base.Bytes.{Bytes, to_be_bytes, from_be_bytes, signed64}
use dtgproxy.Base.Map.{Map, insert, nat_key}
use dtgproxy.Base.Strings.{String-discrete, chars, strip_prefix, text_key}
use dtgproxy.Kernel.{identifier, transaction_time}
use dtgproxy.Storage.Mutation.{
  Value, bytes, TransactionState, prepared, committed, aborted, TransactionRecord,
  new_transaction_record, ReplicaMetadata, new_replica_metadata, command_id,
}
use dtgproxy.Shard.{ShardError, corrupt_intent_history, from_storage, from_kernel}
use dtgproxy.Shard.Messages.{display_shard}
use dtgproxy.Shard.Codec.{refuse}
use dtgproxy.Shard.Command.{
  max_intent_items, ParticipantIntent, encode_intent, CommitSingleShardTransaction,
  RecordHomeDecision, FinalizeParticipant, ShardCommand, record_home_decision, same_number,
  first_time,
}
use dtgproxy.Shard.Command.Checks.{digest_of}
use dtgproxy.Shard.Command.Encode.{encode_command}
use dtgproxy.Shard.Command.Decode.{decode_command, decode_intent}

pub ParticipantIntent-discrete : Discrete ParticipantIntent
ParticipantIntent-discrete = hlevel (ℕ_discrete, String-discrete)

pub ReplicaMetadata-discrete : Discrete ReplicaMetadata
ReplicaMetadata-discrete = hlevel (ℕ_discrete, String-discrete)

pub TransactionRecord-discrete : Discrete TransactionRecord
TransactionRecord-discrete = hlevel ℕ_discrete

abbrev pub corrupt : {A : Type 0} → String → Result ShardError A
corrupt message = err (corrupt_intent_history message)

abbrev pub corrupt_if : Bool → String → Result ShardError (Unit {0})
corrupt_if bad message = if bad then corrupt message else ok tt

-- One hexadecimal digit, and `{:0w$x}`.
abbrev hex_digit : ℕ → String
hex_digit n = Prim.Native.String.slice "0123456789abcdef" n (n + 1)

unfoldable pub hex : ℕ → ℕ → String
hex zero n = ""
hex (suc width) n = hex width (n / 16) ++ₛ hex_digit (n % 16)

abbrev digit_of : ℕ → Option ℕ
digit_of c =
    if leb 48 c && leb c 57
    then some (c - 48)
    else if leb 97 c && leb c 102
    then some (c - 87)
    else if leb 65 c && leb c 70
    then some (c - 55)
    else none

abbrev add_digit : ℕ → Option ℕ → Option ℕ
add_digit acc none = none
add_digit acc (some d) = some (acc * 16 + d)

unfoldable pub hex_loop : Option ℕ → List ℕ → Option ℕ
hex_loop acc [] = acc
hex_loop none (c ∷ cs) = none
hex_loop (some acc) (c ∷ cs) = hex_loop (add_digit acc (digit_of c)) cs

-- `u128::from_str_radix(text, 16)` of a text of 32 characters, which may start with a sign.
abbrev pub parse_hex : List ℕ → Option ℕ
parse_hex [] = none
parse_hex (c ∷ cs) = if c == 43 then hex_loop (some 0) cs else hex_loop (some 0) (c ∷ cs)

abbrev pub state_prefix : String
state_prefix = "dtg.transaction_state.v1/"

abbrev pub home_prefix : String
home_prefix = "dtg.transaction_home_decision.v2/"

abbrev pub receipt_prefix : String
receipt_prefix = "dtg.single_shard_transaction.v1/"

abbrev pub active_name : String
active_name = "dtg.transaction_active_intents.v1"

abbrev pub state_name : ℕ → String
state_name id = state_prefix ++ₛ hex 32 id

-- `transaction_id_from_metadata_name`; a suffix of another length in characters has it in bytes too, or
-- does not parse.
unfoldable pub id_from_name : String → String → String → Result ShardError ℕ
id_from_name name prefix description = do
  suffix ←
      ok_or (strip_prefix (chars prefix) (chars name))
        (corrupt_intent_history ("metadata is not a " ++ₛ (description ++ₛ " record")))
  corrupt_if (not (length suffix == 32)) (description ++ₛ " metadata name is malformed")
  value ←
      ok_or (parse_hex suffix)
        (corrupt_intent_history (description ++ₛ " metadata name is malformed"))
  from_kernel (identifier value)

abbrev pub expect_bytes : Value → String → Result ShardError Bytes
expect_bytes (bytes content) message = ok content
expect_bytes _ message = corrupt message

pub record DurableTransactionState : Type 0 where
  pub intent : ParticipantIntent
  pub terminal : Option TransactionRecord

abbrev same_record : Option TransactionRecord → TransactionRecord → Bool
same_record none r = false
same_record (some t) r = is_dec (TransactionRecord-discrete t r)

abbrev pub is_intent : Option ParticipantIntent → ParticipantIntent → Bool
is_intent none i = false
is_intent (some j) i = is_dec (ParticipantIntent-discrete j i)

abbrev matches_state : TransactionState → Option ParticipantIntent → ParticipantIntent → Bool
matches_state committed carried i = is_intent carried i
matches_state aborted carried i = not (is_some carried)
matches_state prepared carried i = false

-- `DurableTransactionState::matches_finalize`
unfoldable pub matches_finalize : DurableTransactionState → FinalizeParticipant → Bool
matches_finalize s c =
    same_record s.terminal c.terminal && matches_state c.terminal.state c.intent s.intent

-- One entry of the index, as 48 bytes, and the loop over them.
abbrev is_out_of_order : Option ℕ → ℕ → Bool
is_out_of_order none id = false
is_out_of_order (some previous) id = leb id previous

unfoldable pub read_index : ℕ → Bytes → Option ℕ → Map ℕ ℕ → Result ShardError (Map ℕ ℕ)
read_index zero content previous indexed = ok indexed
read_index (suc count) content previous indexed = do
  id ← from_kernel (identifier (from_be_bytes (take 16 content)))
  corrupt_if (is_out_of_order previous id) "active transaction intent index is not strictly ordered"
  read_index count (drop 48 content) (some id)
      (insert id (from_be_bytes (take 32 (drop 16 content))) indexed)

unfoldable pub decode_active_intents_metadata : ReplicaMetadata → Result ShardError (Map ℕ ℕ)
decode_active_intents_metadata m = do
  corrupt_if (not (text_key.same m.name active_name))
      "metadata is not the active transaction intent index"
  content ← expect_bytes m.value "active transaction intent index is not bytes"
  corrupt_if (ltb (length content) 8 || not (from_be_bytes (take 4 content) == 1))
      "active transaction intent index has an unsupported encoding"
  let count : ℕ = from_be_bytes (take 4 (drop 4 content))
  corrupt_if (ltb max_intent_items count || not (length content == 8 + count * 48))
      "active transaction intent index exceeds its bound or is truncated"
  read_index count (drop 8 content) none []

abbrev time_of_bytes : Bytes → Result ShardError ℕ
time_of_bytes content = from_kernel (transaction_time (signed64 (from_be_bytes content)))

pub record SingleShardTransactionReceipt : Type 0 where
  pub receipt_command : ℕ
  pub transaction_id : ℕ
  pub start_time : ℕ
  pub snapshot_applied_index : ℕ
  pub commit_time : ℕ
  pub request_digest : ℕ

-- A transaction that was checked has graph mutations, and so a time.
abbrev commit_time_of : Option ℕ → ℕ
commit_time_of none = 0
commit_time_of (some time) = time

unfoldable pub single_shard_transaction_metadata :
    CommitSingleShardTransaction → Result ShardError ReplicaMetadata
single_shard_transaction_metadata c = from_storage (
    new_replica_metadata (receipt_prefix ++ₛ hex 32 c.transaction_id) (
      bytes (
        to_be_bytes 4 1
        ++ (to_be_bytes 16 c.header.command_id
            ++ (to_be_bytes 16 c.transaction_id
                ++ (to_be_bytes 8 c.start_time
                    ++ (to_be_bytes 8 c.snapshot_applied_index
                        ++ (to_be_bytes 8 (commit_time_of (first_time c.mutations))
                            ++ to_be_bytes 32 c.request_digest))))))))

unfoldable pub decode_single_shard_transaction_metadata :
    ReplicaMetadata → Result ShardError SingleShardTransactionReceipt
decode_single_shard_transaction_metadata m = do
  transaction_id ← id_from_name m.name receipt_prefix "single-Shard transaction receipt"
  content ← expect_bytes m.value "single-Shard transaction receipt is not bytes"
  corrupt_if (not (length content == 92) || not (from_be_bytes (take 4 content) == 1))
      "single-Shard transaction receipt has an unsupported encoding"
  receipt_command ← from_storage (command_id (from_be_bytes (take 16 (drop 4 content))))
  id ← from_kernel (identifier (from_be_bytes (take 16 (drop 20 content))))
  start_time ← time_of_bytes (take 8 (drop 36 content))
  commit_time ← time_of_bytes (take 8 (drop 52 content))
  corrupt_if (not (id == transaction_id) || leb commit_time start_time)
      "single-Shard transaction receipt name or commit time is inconsistent"
  ok (record {
    receipt_command = receipt_command;
    transaction_id = id;
    start_time = start_time;
    snapshot_applied_index = from_be_bytes (take 8 (drop 44 content));
    commit_time = commit_time;
    request_digest = from_be_bytes (drop 60 content);
  })
