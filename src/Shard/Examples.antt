-- ===== src/Shard/Examples.antt =====
-- Runs of the modules of the shard at concrete inputs.
use dtgproxy.Base.{ℕ, ◌≡◌, refl, arith, [], ◌∷◌, true, pos, negsuc, Result, ok, err}
use dtgproxy.Base.Bytes.{Bytes, to_be_bytes}
use dtgproxy.Base.Utf8.{as_bytes, utf8_of}
use dtgproxy.Kernel.{identifier, valid_interval}
use dtgproxy.Storage.Mutation.{
  LogicalMutation, put_vertex, delete_edge, boolean, integer, string, list, map, null, value,
  no_values, field, no_fields, prepared, new_vertex, new_transaction_record, validate_properties,
  vertex_id, edge_id, command_id,
}
use dtgproxy.Shard.{ShardError}
use dtgproxy.Shard.Codec.{consume}
use dtgproxy.Shard.Codec.Encoder.{
  put_mutations, put_each, put_mutation, put_properties, put_entries, put_value, put_count,
  put_bytes, finish, pattern64, put_record,
}
use dtgproxy.Shard.Codec.WrittenValues.{IsValue}
use dtgproxy.Shard.Online.{new_header}
use dtgproxy.Shard.Command.{
  ShardCommand, prewrite_intent, ParticipantIntent, encode_intent, validate_intent_mutations,
}
use dtgproxy.Shard.Command.Checks.{validate_prewrite, digest_of}
use dtgproxy.Shard.Command.Encode.{encode_command, check_command, put_command, put_intent}
use dtgproxy.Shard.Command.Decode.{decode_command}
use dtgproxy.Shard.Command.RoundTrip.{decode_command-encode_command}

abbrev hash : Bytes → ℕ
hash content = 77

abbrev vertex : LogicalMutation
vertex = put_vertex (record {
  id = 5;
  version = 2;
  valid_time = record { start = negsuc 3; end = pos 9 };
  transaction_time = 40;
  properties =
      ("age", integer (negsuc 0))
      ∷ (
        "names",
        map (
            field "a" (string "é")
              (field "b" (list (value null (value (boolean true) no_values))) no_fields)),
      )
      ∷ [];
})

abbrev deletion : LogicalMutation
deletion = delete_edge (record { id = 6; version = 3; transaction_time = 40 })

abbrev intent : ParticipantIntent
intent = record {
  transaction_id = 9;
  shard_id = 4;
  start_time = 30;
  snapshot_applied_index = 12;
  mutations = vertex ∷ deletion ∷ [];
}

abbrev prewrite : ShardCommand
prewrite = prewrite_intent (record {
  header = record { command_id = 1; placement_epoch = 2; backend_generation = 3 };
  prepared_record = record { id = 9; state = prepared; transaction_time = 30; record_digest = 77 };
  intent = intent;
})

abbrev bytes_of : Result ShardError Bytes → Bytes
bytes_of (ok code) = code
bytes_of (err _) = []

encoded : encode_command hash prewrite ≡ ok (bytes_of (encode_command hash prewrite))
unfolding encode_command check_command put_command put_intent validate_prewrite digest_of
    encode_intent validate_intent_mutations put_mutations put_each put_mutation put_properties
    put_entries put_value put_count put_bytes finish pattern64 put_record consume to_be_bytes
    as_bytes utf8_of
encoded = refl

decoded_example : decode_command hash (bytes_of (encode_command hash prewrite)) ≡ ok prewrite
unfolding command_id identifier new_header valid_interval vertex_id edge_id new_vertex
    validate_properties new_transaction_record IsValue
decoded_example =
    decode_command-encode_command hash prewrite (bytes_of (encode_command hash prewrite))
      (record {
        id_made = refl;
        id_bound = omega arith;
        epoch_bound = omega arith;
        generation_bound = omega arith;
        made = refl;
      })
      (
        record {
          id_made = refl;
          id_bound = omega arith;
          time_bound = omega arith;
          digest_bound = omega arith;
          made = refl;
        },
        record {
          id_made = refl;
          id_bound = omega arith;
          shard_made = refl;
          shard_bound = omega arith;
          time_bound = omega arith;
          index_bound = omega arith;
          mutations_made = (
            record {
              id_made = refl;
              id_bound = omega arith;
              version_bound = omega arith;
              start_bound = omega arith;
              end_bound = omega arith;
              interval_made = refl;
              time_bound = omega arith;
              properties_made = (
                omega arith,
                (
                  ((refl, refl), tt),
                  ((tt, (((refl, refl), tt), ((tt, (tt, tt)), (tt, tt)))), (tt, tt)),
                ),
              );
              made = refl;
            },
            (
              record {
                id_made = refl;
                id_bound = omega arith;
                version_bound = omega arith;
                time_bound = omega arith;
              },
              tt,
            ),
          );
        },
      )
      encoded
