-- ===== src/Shard/Command/RoundTrip.antt =====
-- Commands as `encode_current` of crates/execution/dtg-shard/src/command.rs writes them and `decode` reads
-- them back.
use dtgproxy.Base.{
  ℕ, ◌-◌, ◌^◌, ◌<◌, ◌≡◌, refl, sym, ap, ◌∙◌, subst, inl, inr, false, List, [], arith, length,
  is_nil, ltb, pos, ok, All, >>=-eq-ok, >>=-ok, Result-cases,
}
use dtgproxy.Base.Bytes.{Bytes}
use dtgproxy.Storage.Mutation.{LogicalMutation, ReplicaMetadata, new_replica_metadata}
use dtgproxy.Shard.{from_kernel}
use dtgproxy.Shard.Codec.{refuse, max_collection_items, max_allocation_items}
use dtgproxy.Shard.Codec.Encoder.{u8, u32, u64, u128, i64, put_digest, put_mutations, put_record}
use dtgproxy.Shard.Codec.Decoder.{finished, get_mutations}
use dtgproxy.Shard.Codec.Written.{
  Wrote, stands, then_wrote, gave, wrote_u8, wrote_u32, wrote_u64, wrote_u128, wrote_digest,
}
use dtgproxy.Shard.Codec.RoundTrip.{IsMutation, wrote_id, wrote_time, wrote_mutations}
use dtgproxy.Shard.Online.{MigrationCommand}
use dtgproxy.Shard.Command.{
  ParticipantIntent, encode_intent, intent_metadata, validate_intent_mutations, validate_commit,
  CommitSingleShard, CommitSingleShardTransaction, PrewriteIntent, RecordHomeDecision,
  FinalizeParticipant, AdvanceClosedTimestamp, InstallSnapshot, header_of, ShardCommand,
  commit_single_shard, commit_transaction, prewrite_intent, record_home_decision,
  finalize_participant, advance_closed_timestamp, install_snapshot, migration,
}
use dtgproxy.Shard.Command.Checks.{
  validate_prewrite, validate_decision, new_decision, command_mutations, migration_metadata,
}
use dtgproxy.Shard.Command.Encode.{
  put_header, put_command, migration_phase_tag, check_command, encode_command,
  command_format_version,
}
use dtgproxy.Shard.Command.Decode.{
  kernel_id, command_arm, get_command, decode_command, has_no_mutations,
}
use dtgproxy.Shard.Command.Parts.{
  moved, Ends, ends, then_last, then_checked, ended, u32_first, read_all-Ends, length-finish,
  IsHeader, wrote_header, wrote_intent,
}
use dtgproxy.Shard.Command.Bodies.{
  wrote_put_record, wrote_manifest, wrote_intent_option, decode_migration_phase_lem, IsOnline,
  read_online, IsTransaction, IsInstall, IsBody, tag_of, Arm,
}

limited :
    (ms : List LogicalMutation) (w w' : Bytes)
    → All IsMutation ms
    → put_mutations ms w ≡ ok w'
    → (n : ℕ) × Wrote w w' max_allocation_items n get_mutations ms
unfolding put_mutations
limited ms w w' h went =
    let (u, small, put) =
      >>=-eq-ok (refuse (ltb max_collection_items (length ms)) "too many logical mutations") _
        went in
    wrote_mutations ms w w' max_collection_items "command collection exceeds item limit" h
      (ground arith) went

intent_metadata-ok :
    (i : ParticipantIntent) (code : Bytes)
    → encode_intent i ≡ ok code
    → (m : ReplicaMetadata) × (intent_metadata i ≡ ok m)
unfolding intent_metadata new_replica_metadata
intent_metadata-ok i code encoded = >>=-ok _ _ encoded (_, refl)

module _ (blake3 : Bytes → ℕ) where
  wrote_commit :
      (c : CommitSingleShard) (w w' : Bytes)
      → IsBody (commit_single_shard c)
      → put_command (commit_single_shard c) w ≡ ok w'
      → Arm blake3 (commit_single_shard c) w w'
  unfolding put_command command_arm
  wrote_commit c w w' h went =
      let (n, wrote) = limited c.mutations (put_header c.header (u8 1 w)) w' h.0 went in
      (n, ends (then_wrote _ wrote (gave refl)))

  wrote_transaction :
      (c : CommitSingleShardTransaction) (w w' : Bytes)
      → IsTransaction c
      → put_command (commit_transaction c) w ≡ ok w'
      → Arm blake3 (commit_transaction c) w w'
  unfolding put_command command_arm
  wrote_transaction c w w' h went =
      let m = max_allocation_items in
      let w0 = put_header c.header (u8 8 w) in
      let w1 = u128 c.transaction_id w0 in
      let w2 = i64 (pos c.start_time) w1 in
      let w3 = u64 c.snapshot_applied_index w2 in
      let (w4, digested, put) = >>=-eq-ok (put_digest c.request_digest w3) _ went in
      let (n, wrote) = limited c.mutations w4 w' h.mutations_made put in
      (
        n,
        ends (
            then_wrote _
              (wrote_id w0 c.transaction_id m kernel_id h.id_bound (ap from_kernel h.id_made))
              (then_wrote _ (wrote_time w1 c.start_time m h.time_bound) (
                then_wrote _ (wrote_u64 w2 c.snapshot_applied_index m h.index_bound) (
                  then_wrote _ (wrote_digest w3 w4 c.request_digest m h.digest_bound digested)
                    (then_wrote _ wrote (gave refl)))))),
      )

  wrote_prewrite :
      (c : PrewriteIntent) (w w' : Bytes)
      → IsBody (prewrite_intent c)
      → put_command (prewrite_intent c) w ≡ ok w'
      → Arm blake3 (prewrite_intent c) w w'
  unfolding put_command command_arm
  wrote_prewrite c w w' h went =
      let m = max_allocation_items in
      let w0 = put_header c.header (u8 2 w) in
      (
        m,
        ends (
            then_wrote _ (wrote_put_record w0 c.prepared_record m h.0) (
              then_wrote _ (wrote_intent (put_record c.prepared_record w0) w' c.intent m h.1 went)
                (gave refl))),
      )

  wrote_decision :
      (c : RecordHomeDecision) (w w' : Bytes)
      → IsHeader c.header
      → IsBody (record_home_decision c)
      → validate_decision blake3 c ≡ ok tt
      → put_command (record_home_decision c) w ≡ ok w'
      → Arm blake3 (record_home_decision c) w w'
  unfolding put_command command_arm new_decision
  wrote_decision c w w' made h valid went =
      let m = max_allocation_items in
      let w0 = put_header c.header (u8 3 w) in
      let again : new_decision blake3 c.header.command_id c.header.placement_epoch
            c.header.backend_generation c.decision c.manifest
          ≡ ok c =
        rw (new_decision, made.made, valid) refl in
      (
        m - length c.manifest.participants,
        ends (
            then_wrote _ (wrote_put_record w0 c.decision m h.0) (
              then_wrote _
                (wrote_manifest (put_record c.decision w0) w' c.manifest m h.1 (omega arith) went)
                (then_wrote _ (gave again) (gave refl)))),
      )

  wrote_finalize :
      (c : FinalizeParticipant) (w w' : Bytes)
      → IsBody (finalize_participant c)
      → put_command (finalize_participant c) w ≡ ok w'
      → Arm blake3 (finalize_participant c) w w'
  unfolding put_command command_arm
  wrote_finalize c w w' h went =
      let m = max_allocation_items in
      let w0 = put_header c.header (u8 4 w) in
      (
        m,
        ends (
            then_wrote _ (wrote_put_record w0 c.terminal m h.0) (
              then_wrote _ (wrote_intent_option (put_record c.terminal w0) w' c.intent m h.1 went)
                (gave refl))),
      )

  wrote_advance :
      (c : AdvanceClosedTimestamp) (w w' : Bytes)
      → c.closed_timestamp < 2 ^ 63
      → put_command (advance_closed_timestamp c) w ≡ ok w'
      → Arm blake3 (advance_closed_timestamp c) w w'
  unfolding put_command command_arm
  wrote_advance c w w' h went =
      let m = max_allocation_items in
      let w0 = put_header c.header (u8 5 w) in
      (m, ends (moved went (then_wrote _ (wrote_time w0 c.closed_timestamp m h) (gave refl))))

  wrote_install :
      (c : InstallSnapshot) (w w' : Bytes)
      → IsInstall c
      → put_command (install_snapshot c) w ≡ ok w'
      → Arm blake3 (install_snapshot c) w w'
  unfolding put_command command_arm
  wrote_install c w w' h went =
      let m = max_allocation_items in
      let w0 = put_header c.header (u8 6 w) in
      (
        m,
        ends (
            then_wrote _ (wrote_u128 w0 c.snapshot_id m h.id_bound) (
              then_wrote _
                (wrote_digest (u128 c.snapshot_id w0) w' c.content_digest m h.digest_bound went)
                (then_wrote _ (gave h.made) (gave refl)))),
      )

  wrote_migration :
      (c : MigrationCommand) (w w' : Bytes)
      → IsOnline c c.online
      → put_command (migration c) w ≡ ok w'
      → Arm blake3 (migration c) w w'
  unfolding put_command command_arm
  wrote_migration c w w' h went =
      let m = max_allocation_items in
      let w0 = put_header c.header (u8 7 w) in
      let w1 = u8 (migration_phase_tag c.phase) w0 in
      (
        m,
        then_last _ (wrote_u8 w0 (migration_phase_tag c.phase) m) (
            then_last _ (gave (decode_migration_phase_lem c.phase))
              (ended _ (read_online w1 w' c m c.online h went) refl)),
      )

  wrote_body :
      (c : ShardCommand) (w w' : Bytes)
      → IsHeader (header_of c)
      → IsBody c
      → check_command blake3 c ≡ ok tt
      → put_command c w ≡ ok w'
      → Arm blake3 c w w'
  unfolding check_command
  wrote_body (commit_single_shard c) w w' made h valid went = wrote_commit c w w' h went
  wrote_body (commit_transaction c) w w' made h valid went = wrote_transaction c w w' h went
  wrote_body (prewrite_intent c) w w' made h valid went = wrote_prewrite c w w' h went
  wrote_body (record_home_decision c) w w' made h valid went =
      wrote_decision c w w' made h valid went
  wrote_body (finalize_participant c) w w' made h valid went = wrote_finalize c w w' h went
  wrote_body (advance_closed_timestamp c) w w' made h valid went = wrote_advance c w w' h went
  wrote_body (install_snapshot c) w w' made h valid went = wrote_install c w w' h went
  wrote_body (migration c) w w' made h valid went = wrote_migration c w w' h went

  prewrite_encodes :
      (c : PrewriteIntent)
      → validate_prewrite blake3 c ≡ ok tt
      → (code : Bytes) × (encode_intent c.intent ≡ ok code)
  unfolding validate_prewrite
  prewrite_encodes c valid = elim (Result-cases (encode_intent c.intent)) [
    | inl encoded ↦ encoded
    | inr (e, failed) ↦ let no_way : ⊥ = ground arith in absurd no_way
  ]

  -- What passes the checks of the encoder stands for mutations.
  check_command-mutations :
      (c : ShardCommand)
      → check_command blake3 c ≡ ok tt
      → (ms : List LogicalMutation) × (command_mutations blake3 c ≡ ok ms)
  unfolding check_command command_mutations new_replica_metadata migration_metadata
  check_command-mutations (commit_single_shard c) valid = >>=-ok _ _ valid (_, refl)
  check_command-mutations (commit_transaction c) valid = >>=-ok _ _ valid (_, refl)
  check_command-mutations (prewrite_intent c) valid =
      let (code, encoded) = prewrite_encodes c valid in
      let (metadata, made) = intent_metadata-ok c.intent code encoded in
      >>=-ok _ _ valid (>>=-ok _ _ made (_, refl))
  check_command-mutations (record_home_decision c) valid = >>=-ok _ _ valid (_, refl)
  check_command-mutations (finalize_participant c) valid = >>=-ok _ _ valid (_, refl)
  check_command-mutations (advance_closed_timestamp c) valid = (_, refl)
  check_command-mutations (install_snapshot c) valid = (_, refl)
  check_command-mutations (migration c) valid = (_, refl)

  has_mutations :
      (c : ShardCommand) → IsBody c → check_command blake3 c ≡ ok tt → has_no_mutations c ≡ false
  unfolding check_command validate_commit validate_intent_mutations
  has_mutations (commit_single_shard c) h valid = h.1
  has_mutations (commit_transaction c) h valid = ground arith
  has_mutations (prewrite_intent c) h valid = refl
  has_mutations (record_home_decision c) h valid = refl
  has_mutations (finalize_participant c) h valid = refl
  has_mutations (advance_closed_timestamp c) h valid = refl
  has_mutations (install_snapshot c) h valid = refl
  has_mutations (migration c) h valid = refl

  -- The reader of a command on the bytes of one.
  read_command :
      (c : ShardCommand) (code : Bytes)
      → IsHeader (header_of c)
      → IsBody c
      → check_command blake3 c ≡ ok tt
      → put_command c (u32 command_format_version []) ≡ ok code
      → (n : ℕ) × Ends [] code max_allocation_items n (get_command blake3) c
  unfolding get_command
  read_command c code made h valid put =
      let m = max_allocation_items in
      let w0 = u32 command_format_version [] in
      let w1 = u8 (tag_of c) w0 in
      let (n, body) = wrote_body c w0 code made h valid put in
      let (ms, stands_for) = check_command-mutations c valid in
      let nonempty = has_mutations c h valid in
      (
        n,
        then_last _ (wrote_u32 [] command_format_version m (omega arith)) (
            then_checked _ refl (
              then_last _ (wrote_u8 w0 (tag_of c) m) (
                then_last _ (wrote_header w1 (header_of c) m made)
                  (ended _ body (unfold finished in rw (nonempty, stands_for) refl))))),
      )

  command_starts :
      (c : ShardCommand) (code : Bytes) (n n' : ℕ)
      → get_command blake3 (stands code n) ≡ ok (c, stands [] n')
      → is_nil code ≡ false
  unfolding get_command
  command_starts c code n n' went = u32_first _ code n went

  -- A command as its constructors make it, with numbers that fit their types, is read back from the
  -- bytes that the encoder made of it.
  pub decode_command-encode_command :
      (c : ShardCommand) (code : Bytes)
      → IsHeader (header_of c)
      → IsBody c
      → encode_command blake3 c ≡ ok code
      → decode_command blake3 code ≡ ok c
  unfolding encode_command decode_command
  decode_command-encode_command c code made h went =
      let (u, valid, went1) = >>=-eq-ok (check_command blake3 c) _ went in
      let (w, put, done) = >>=-eq-ok (put_command c (u32 command_format_version [])) _ went1 in
      let (same, small) = length-finish w code done in
      let (n, read) = read_command c code made h valid (put ∙ ap ok same) in
      let full : is_nil code ≡ false =
        subst (λ b. is_nil b ≡ false) (sym read.added)
          (command_starts c read.content max_allocation_items n read.reads) in
      read_all-Ends (get_command blake3) code n c read full small
