-- ===== src/Shard/Durable/States.antt =====
-- The intents, decisions and terminal states of transactions that a shard keeps as metadata
-- (crates/execution/dtg-shard/src/state_machine.rs).
use Prim.Native.String.{◌++◌ as ◌++ₛ◌}
use dtgproxy.Base.{
  ℕ, ◌+◌, Bool, false, not, ◌&&◌, ◌||◌, [], ◌∷◌, ◌++◌, length, take, drop, is_nil, ltb, ◌==◌,
  if◌then◌else◌, Option, none, some, Result, ok, err, ◌>>=◌, ◌>>◌,
}
use dtgproxy.Base.Bytes.{Bytes, to_be_bytes, from_be_bytes}
use dtgproxy.Base.Map.{Map, nat_key}
use dtgproxy.Base.Strings.{text_key}
use dtgproxy.Storage.Mutation.{
  bytes, TransactionState, prepared, committed, aborted, TransactionRecord, new_transaction_record,
  ReplicaMetadata, new_replica_metadata,
}
use dtgproxy.Shard.{ShardError, from_storage}
use dtgproxy.Shard.Messages.{display_shard}
use dtgproxy.Shard.Codec.{refuse}
use dtgproxy.Shard.Command.{
  max_intent_items, ParticipantIntent, encode_intent, RecordHomeDecision, ShardCommand,
  record_home_decision, same_number,
}
use dtgproxy.Shard.Command.Checks.{digest_of}
use dtgproxy.Shard.Command.Encode.{encode_command}
use dtgproxy.Shard.Command.Decode.{decode_command, decode_intent}
use dtgproxy.Shard.Durable.{
  corrupt, corrupt_if, hex, state_prefix, home_prefix, active_name, state_name, id_from_name,
  expect_bytes, DurableTransactionState, time_of_bytes,
}

module _ (blake3 : Bytes → ℕ) where
  abbrev terminal_time : TransactionRecord → ParticipantIntent → TransactionState → Bool
  terminal_time r i committed = ltb i.start_time r.transaction_time
  terminal_time r i aborted = r.transaction_time == i.start_time
  terminal_time r i prepared = false

  unfoldable pub validate_intent_terminal :
      ParticipantIntent → TransactionRecord → Result ShardError (Unit {0})
  validate_intent_terminal i r =
      corrupt_if
        (not (
          r.id == i.transaction_id
          && (same_number (some r.record_digest) (digest_of blake3 i)
              && terminal_time r i r.state)))
        "participant terminal record contradicts its durable intent"

  -- The tag and the tail of a durable state.
  abbrev state_tag_of : Option TransactionRecord → Result ShardError ℕ
  state_tag_of none = ok 1
  state_tag_of (some r) = elim r.state [
    | committed ↦ ok 2
    | aborted ↦ ok 3
    | prepared ↦ corrupt "durable transaction state cannot store Prepared as a terminal"
  ]

  abbrev terminal_bytes : Option TransactionRecord → Bytes
  terminal_bytes none = []
  terminal_bytes (some r) = to_be_bytes 8 r.transaction_time ++ to_be_bytes 32 r.record_digest

  abbrev check_terminal :
      ParticipantIntent → Option TransactionRecord → Result ShardError (Unit {0})
  check_terminal i none = ok tt
  check_terminal i (some r) = validate_intent_terminal i r

  unfoldable pub transaction_state_metadata :
      ParticipantIntent → Option TransactionRecord → Result ShardError ReplicaMetadata
  transaction_state_metadata i terminal = do
    check_terminal i terminal
    encoded ← encode_intent i
    tag ← state_tag_of terminal
    from_storage (
        new_replica_metadata (state_name i.transaction_id) (
          bytes (
            to_be_bytes 4 1
            ++ (tag ∷ (to_be_bytes 4 (length encoded) ++ (encoded ++ terminal_bytes terminal))))))

  abbrev explain : Result ShardError ParticipantIntent → Result ShardError ParticipantIntent
  explain (ok i) = ok i
  explain (err e) = corrupt ("durable transaction state intent is corrupt: " ++ₛ display_shard e)

  abbrev read_terminal :
      ParticipantIntent → TransactionState → Bytes → Result ShardError TransactionRecord
  read_terminal i state content = do
    time ← time_of_bytes (take 8 content)
    r ← from_storage (
        new_transaction_record (record {
          id = i.transaction_id;
          state = state;
          transaction_time = time;
          record_digest = from_be_bytes (drop 8 content);
        }))
    validate_intent_terminal i r
    ok r

  abbrev some_terminal :
      Result ShardError TransactionRecord → Result ShardError (Option TransactionRecord)
  some_terminal (ok r) = ok (some r)
  some_terminal (err e) = err e

  -- The terminal by the tag and by what follows the intent.
  abbrev tail_terminal :
      ParticipantIntent → ℕ → Bytes → Result ShardError (Option TransactionRecord)
  tail_terminal i tag content =
      if tag == 1 && is_nil content
      then ok none
      else if tag == 2 && length content == 40
      then some_terminal (read_terminal i committed content)
      else if tag == 3 && length content == 40
      then some_terminal (read_terminal i aborted content)
      else corrupt "durable transaction state tag or trailing bytes are invalid"

  unfoldable pub decode_transaction_state_metadata :
      ReplicaMetadata → Result ShardError DurableTransactionState
  decode_transaction_state_metadata m = do
    transaction_id ← id_from_name m.name state_prefix "durable transaction state"
    content ← expect_bytes m.value "durable transaction state is not bytes"
    corrupt_if (ltb (length content) 9 || not (from_be_bytes (take 4 content) == 1))
        "durable transaction state has an unsupported encoding"
    let size : ℕ = from_be_bytes (take 4 (drop 5 content))
    corrupt_if (ltb (length content) (9 + size))
        "durable transaction state intent payload is truncated"
    i ← explain (decode_intent (take size (drop 9 content)))
    corrupt_if (not (i.transaction_id == transaction_id))
        "durable transaction state name contradicts its transaction ID"
    terminal ← tail_terminal i (from_be_bytes (take 1 (drop 4 content))) (drop (9 + size) content)
    ok (record { intent = i; terminal = terminal })

  -- An intent was encoded when it was made, and so has a digest.
  abbrev pub digest_number : ParticipantIntent → ℕ
  digest_number i = elim (digest_of blake3 i) [ none ↦ 0 | some d ↦ d ]

  abbrev pub index_bytes : Map ℕ ParticipantIntent → Bytes
  index_bytes [] = []
  index_bytes ((id, i) ∷ rest) =
      to_be_bytes 16 id ++ (to_be_bytes 32 (digest_number i) ++ index_bytes rest)

  unfoldable pub active_intents_metadata :
      Map ℕ ParticipantIntent → Result ShardError ReplicaMetadata
  active_intents_metadata active = do
    refuse (ltb max_intent_items (length active))
        "active transaction intent count exceeds the supported bound"
    from_storage (
        new_replica_metadata active_name
          (bytes (to_be_bytes 4 1 ++ (to_be_bytes 4 (length active) ++ index_bytes active))))

  unfoldable pub home_decision_metadata : RecordHomeDecision → Result ShardError ReplicaMetadata
  home_decision_metadata c = do
    encoded ← encode_command blake3 (record_home_decision c)
    from_storage (new_replica_metadata (home_prefix ++ₛ hex 32 c.decision.id) (bytes encoded))

  abbrev expect_decision : ShardCommand → Result ShardError RecordHomeDecision
  expect_decision (record_home_decision c) = ok c
  expect_decision _ = corrupt "Home decision metadata contains another command type"

  unfoldable pub decode_home_decision_metadata :
      ReplicaMetadata → Result ShardError RecordHomeDecision
  decode_home_decision_metadata m = do
    transaction_id ← id_from_name m.name home_prefix "Home decision"
    content ← expect_bytes m.value "Home decision metadata is not bytes"
    command ← decode_command blake3 content
    c ← expect_decision command
    corrupt_if (not (c.decision.id == transaction_id))
        "Home decision metadata name contradicts its transaction ID"
    ok c
