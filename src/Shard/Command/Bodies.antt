-- ===== src/Shard/Command/Bodies.antt =====
-- The bodies of commands, as the encoder of crates/execution/dtg-shard/src/command.rs writes them and its
-- decoder reads them back, and what commands are that their constructors make.
use dtgproxy.Base.{
  ℕ, ◌-◌, ◌^◌, ◌≤◌, ◌<◌, ◌≡◌, refl, sym, ap, ◌∙◌, false, List, [], ◌∷◌, arith, length, is_nil, ltb,
  pos, Option, none, some, ok, All, >>=-eq-ok,
}
use mathlib.Core.List.{append-nil}
use dtgproxy.Base.Bytes.{Bytes}
use dtgproxy.Kernel.{identifier}
use dtgproxy.Storage.Mutation.{TransactionRecord}
use dtgproxy.Shard.Codec.{consume, refuse, max_allocation_items}
use dtgproxy.Shard.Codec.Encoder.{u8, u32, u64, u128, i64, put_digest, put_record}
use dtgproxy.Shard.Codec.Decoder.{give, get_record}
use dtgproxy.Shard.Codec.Written.{
  Wrote, stands, then_wrote, gave, wrote_u8, wrote_u64, wrote_u128, wrote_digest, wrote_bare_digest,
  wrote_collection_count,
}
use dtgproxy.Shard.Codec.RoundTrip.{IsMutation, IsRecord, record_head, wrote_record, wrote_time}
use dtgproxy.Shard.Online.{
  MigrationCommand, MigrationPhase, prepare, activate, grace, retire, complete, abort, rollback,
  OnlineMigrationContext, new_migration_command, decode_online,
}
use dtgproxy.Shard.Command.{
  ParticipantIntent, CommitSingleShardTransaction, HomeDecisionParticipant, HomeDecisionManifest,
  new_participant, new_manifest, InstallSnapshot, new_install_snapshot, header_of, ShardCommand,
  commit_single_shard, commit_transaction, prewrite_intent, record_home_decision,
  finalize_participant, advance_closed_timestamp, install_snapshot, migration,
}
use dtgproxy.Shard.Command.Encode.{
  put_header, put_participants, put_manifest, put_intent_option, put_online, migration_phase_tag,
}
use dtgproxy.Shard.Command.Decode.{
  decode_migration_phase, get_participants, get_manifest, get_intent_option, get_online,
  get_migration, command_arm,
}
use dtgproxy.Shard.Command.Parts.{
  passed, moved, Ends, ends, u8_first, wrote_small_id, IsIntent, wrote_intent,
}

pub wrote_put_record :
    (w : Bytes) (r : TransactionRecord) (n : ℕ)
    → IsRecord r
    → Wrote w (put_record r w) n n get_record r
unfolding put_record
wrote_put_record w r n h =
    wrote_record w (put_record r w) r n h
      (wrote_bare_digest (record_head r w) r.record_digest n h.digest_bound)

pub record IsParticipant (p : HomeDecisionParticipant) : Type 0 where
  pub shard_made : identifier p.shard_id ≡ ok p.shard_id
  pub shard_bound : p.shard_id < 2 ^ 64
  pub epoch_made : identifier p.placement_epoch ≡ ok p.placement_epoch
  pub epoch_bound : p.placement_epoch < 2 ^ 64
  pub generation_made : identifier p.backend_generation ≡ ok p.backend_generation
  pub generation_bound : p.backend_generation < 2 ^ 64
  pub index_bound : p.snapshot_applied_index < 2 ^ 64
  pub digest_bound : p.intent_digest < 2 ^ 256
  pub made : new_participant p ≡ ok p

wrote_participants :
    (ps : List HomeDecisionParticipant) (w w' : Bytes) (n : ℕ)
    → All IsParticipant ps
    → put_participants ps w ≡ ok w'
    → Wrote w w' n n (get_participants (length ps)) ps
unfolding put_participants get_participants
wrote_participants [] w w' n h went = moved went (gave refl)
wrote_participants (p ∷ ps) w w' n h went =
    let w1 = u64 p.shard_id w in
    let w2 = u64 p.placement_epoch w1 in
    let w3 = u64 p.backend_generation w2 in
    let w4 = u64 p.snapshot_applied_index w3 in
    let (after, put, rest) = >>=-eq-ok (put_digest p.intent_digest w4) _ went in
    let is = h.0 in
    then_wrote _ (wrote_small_id w p.shard_id n is.shard_bound is.shard_made) (
      then_wrote _ (wrote_small_id w1 p.placement_epoch n is.epoch_bound is.epoch_made) (
        then_wrote _
          (wrote_small_id w2 p.backend_generation n is.generation_bound is.generation_made)
          (then_wrote _ (wrote_u64 w3 p.snapshot_applied_index n is.index_bound) (
            then_wrote _ (wrote_digest w4 after p.intent_digest n is.digest_bound put) (
              then_wrote _ (gave is.made)
                (then_wrote _ (wrote_participants ps after w' n h.1 rest) (gave refl)))))))

pub record IsManifest (m : HomeDecisionManifest) : Type 0 where
  pub time_bound : m.start_time < 2 ^ 63
  pub version_bound : m.catalog_version < 2 ^ 64
  pub participants_made : All IsParticipant m.participants
  pub made : new_manifest m ≡ ok m

few_participants :
    (m m' : HomeDecisionManifest) → new_manifest m ≡ ok m' → length m'.participants ≤ 4096
unfolding new_manifest
few_participants m m' made = ground arith

pub wrote_manifest :
    (w w' : Bytes) (m : HomeDecisionManifest) (n : ℕ)
    → IsManifest m
    → 4096 ≤ n
    → put_manifest m w ≡ ok w'
    → Wrote w w' n (n - length m.participants) get_manifest m
unfolding put_manifest get_manifest consume
wrote_manifest w w' m n h room went =
    let few = few_participants m m h.made in
    let (u, small, put) =
      >>=-eq-ok
        (refuse (ltb (2 ^ 32 - 1) (length m.participants)) "too many home decision participants") _
        went in
    let w1 = i64 (pos m.start_time) w in
    let w2 = u64 m.catalog_version w1 in
    let took : consume n (length m.participants) ≡ ok (n - length m.participants) = ground arith in
    then_wrote _ (wrote_time w m.start_time n h.time_bound) (
      then_wrote _ (wrote_u64 w1 m.catalog_version n h.version_bound) (
        then_wrote _
          (wrote_collection_count w2 (length m.participants) n (n - length m.participants)
            (omega arith) took)
          (then_wrote _
            (wrote_participants m.participants (u32 (length m.participants) w2) w'
              (n - length m.participants) h.participants_made put)
            (gave h.made))))

abbrev pub AreIntents : Option ParticipantIntent → Type 0
AreIntents none = Unit
AreIntents (some i) = IsIntent i

pub wrote_intent_option :
    (w w' : Bytes) (i : Option ParticipantIntent) (n : ℕ)
    → AreIntents i
    → put_intent_option i w ≡ ok w'
    → Wrote w w' n n get_intent_option i
unfolding get_intent_option
wrote_intent_option w w' none n h went = moved went (then_wrote _ (wrote_u8 w 0 n) (gave refl))
wrote_intent_option w w' (some i) n h went =
    then_wrote _ (wrote_u8 w 1 n) (then_wrote _ (wrote_intent (u8 1 w) w' i n h went) (gave refl))

pub decode_migration_phase_lem :
    (p : MigrationPhase) → decode_migration_phase (migration_phase_tag p) ≡ ok p
unfolding decode_migration_phase
decode_migration_phase_lem prepare = refl
decode_migration_phase_lem activate = refl
decode_migration_phase_lem grace = refl
decode_migration_phase_lem retire = refl
decode_migration_phase_lem complete = refl
decode_migration_phase_lem abort = refl
decode_migration_phase_lem rollback = refl

pub record IsContext (c : OnlineMigrationContext) : Type 0 where
  pub id_bound : c.migration_id < 2 ^ 128
  pub epoch_bound : c.source_epoch < 2 ^ 64
  pub source_bound : c.source_generation < 2 ^ 64
  pub retained_bound : c.retained_generation < 2 ^ 64
  pub target_bound : c.target_generation < 2 ^ 64
  pub class_bound : c.target_backend_class_digest < 2 ^ 256
  pub version_bound : c.catalog_version < 2 ^ 64
  pub index_bound : c.verified_index < 2 ^ 64
  pub digest_bound : c.logical_digest < 2 ^ 256

wrote_online :
    (w w' : Bytes) (c : OnlineMigrationContext) (m : MigrationCommand) (n : ℕ)
    → IsContext c
    → decode_online m.header c m.phase ≡ ok m
    → put_online (some c) w ≡ ok w'
    → Wrote w w' n n (get_online m.header m.phase) m
unfolding get_online
wrote_online w w' c m n h made went =
    let w1 = u8 1 w in
    let w2 = u128 c.migration_id w1 in
    let w3 = u64 c.source_epoch w2 in
    let w4 = u64 c.source_generation w3 in
    let w5 = u64 c.retained_generation w4 in
    let w6 = u64 c.target_generation w5 in
    let (w7, classed, rest) = >>=-eq-ok (put_digest c.target_backend_class_digest w6) _ went in
    let w8 = u64 c.catalog_version w7 in
    let w9 = u64 c.verified_index w8 in
    then_wrote _ (wrote_u8 w 1 n) (
      passed _ refl (
        then_wrote _ (wrote_u128 w1 c.migration_id n h.id_bound) (
          then_wrote _ (wrote_u64 w2 c.source_epoch n h.epoch_bound) (
            then_wrote _ (wrote_u64 w3 c.source_generation n h.source_bound) (
              then_wrote _ (wrote_u64 w4 c.retained_generation n h.retained_bound) (
                then_wrote _ (wrote_u64 w5 c.target_generation n h.target_bound) (
                  then_wrote _
                    (wrote_digest w6 w7 c.target_backend_class_digest n h.class_bound classed)
                    (then_wrote _ (wrote_u64 w7 c.catalog_version n h.version_bound) (
                      then_wrote _ (wrote_u64 w8 c.verified_index n h.index_bound) (
                        then_wrote _ (wrote_digest w9 w' c.logical_digest n h.digest_bound rest)
                          (gave made)))))))))))

-- The numbers of a migration command fit their types, and its constructor makes it.
abbrev pub IsOnline : MigrationCommand → Option OnlineMigrationContext → Type 0
IsOnline m none =
    new_migration_command m.header.command_id m.header.placement_epoch m.header.backend_generation
      m.phase
    ≡ ok m
IsOnline m (some c) = IsContext c × (decode_online m.header c m.phase ≡ ok m)

pub read_online :
    (w w' : Bytes) (m : MigrationCommand) (n : ℕ) (c : Option OnlineMigrationContext)
    → IsOnline m c
    → put_online c w ≡ ok w'
    → Ends w w' n n (get_migration m.header m.phase) m
unfolding get_migration
read_online w w' m n none h went = record {
  content = [];
  added = let same : w ≡ w' = cc in sym same ∙ sym (append-nil w);
  reads = ap (λ r. give r (stands [] n)) h;
}
read_online w w' m n (some c) h went =
    let read = ends (wrote_online w w' c m n h.0 h.1 went) in
    let more : is_nil read.content ≡ false =
      unfold get_online in u8_first _ read.content n read.reads in
    record { content = read.content; added = read.added; reads = rw more read.reads }

-- The bytes of the snapshot and of the digests of a command, and a constructor that makes it.
pub record IsTransaction (c : CommitSingleShardTransaction) : Type 0 where
  pub id_made : identifier c.transaction_id ≡ ok c.transaction_id
  pub id_bound : c.transaction_id < 2 ^ 128
  pub time_bound : c.start_time < 2 ^ 63
  pub index_bound : c.snapshot_applied_index < 2 ^ 64
  pub digest_bound : c.request_digest < 2 ^ 256
  pub mutations_made : All IsMutation c.mutations

pub record IsInstall (c : InstallSnapshot) : Type 0 where
  pub id_bound : c.snapshot_id < 2 ^ 128
  pub digest_bound : c.content_digest < 2 ^ 256
  pub made :
      new_install_snapshot c.header.command_id c.header.placement_epoch c.header.backend_generation
        c.snapshot_id c.content_digest
      ≡ ok c

-- A command as its constructors make it, with numbers that fit their types.
abbrev pub IsBody : ShardCommand → Type 0
IsBody (commit_single_shard c) = All IsMutation c.mutations × (is_nil c.mutations ≡ false)
IsBody (commit_transaction c) = IsTransaction c
IsBody (prewrite_intent c) = IsRecord c.prepared_record × IsIntent c.intent
IsBody (record_home_decision c) = IsRecord c.decision × IsManifest c.manifest
IsBody (finalize_participant c) = IsRecord c.terminal × AreIntents c.intent
IsBody (advance_closed_timestamp c) = c.closed_timestamp < 2 ^ 63
IsBody (install_snapshot c) = IsInstall c
IsBody (migration c) = IsOnline c c.online

abbrev pub tag_of : ShardCommand → ℕ
tag_of (commit_single_shard _) = 1
tag_of (commit_transaction _) = 8
tag_of (prewrite_intent _) = 2
tag_of (record_home_decision _) = 3
tag_of (finalize_participant _) = 4
tag_of (advance_closed_timestamp _) = 5
tag_of (install_snapshot _) = 6
tag_of (migration _) = 7

-- The bytes of a command after the tag and the header.
abbrev pub Arm : (Bytes → ℕ) → ShardCommand → Bytes → Bytes → Type 0
Arm blake3 c w w' =
    (n : ℕ) × Ends (put_header (header_of c) (u8 (tag_of c) w)) w' max_allocation_items n
      (command_arm blake3 (header_of c) (tag_of c)) c
