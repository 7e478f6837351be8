-- ===== src/Shard/Command/Parts.antt =====
-- The parts of commands as the encoder of crates/execution/dtg-shard/src/command.rs writes them and its
-- decoder reads them back.
use dtgproxy.Base.{
  ℕ, ◌^◌, ◌≤◌, ◌<◌, ◌≡◌, refl, sym, ap, ◌∙◌, subst, false, List, [], ◌∷◌, ◌++◌, arith, length,
  is_nil, ltb, pos, Result, ok, All, >>=-eq-ok,
}
use mathlib.Core.List.{append-nil, append_assoc}
use dtgproxy.Base.Bytes.{Bytes}
use dtgproxy.Kernel.{identifier}
use dtgproxy.Storage.Mutation.{LogicalMutation, command_id}
use dtgproxy.Shard.{ShardError, from_storage, from_kernel}
use dtgproxy.Shard.Codec.{max_command_bytes, max_allocation_items}
use dtgproxy.Shard.Codec.Encoder.{u32, u64, u128, i64, put_mutations, finish}
use dtgproxy.Shard.Codec.Decoder.{
  Decoder, Reader, give, ◌>>=◌, new_decoder, finished, get_u8, get_u32, get_number, take_bytes,
}
use dtgproxy.Shard.Codec.Written.{
  Wrote, stands, then_wrote, gave, wrote_u32, wrote_u64, wrote_bytes,
}
use dtgproxy.Shard.Codec.RoundTrip.{IsMutation, wrote_id, wrote_time, wrote_mutations}
use dtgproxy.Shard.Online.{CommandHeader, new_header}
use dtgproxy.Shard.Command.{
  ParticipantIntent, intent_head, encode_intent, new_intent, validate_intent_mutations,
  intent_version, max_intent_items, max_intent_bytes,
}
use dtgproxy.Shard.Command.Encode.{put_header, put_intent}
use dtgproxy.Shard.Command.Decode.{
  value_of, read_all, kernel_id, get_small_id, get_intent, decode_intent, checked_command,
  get_header, get_nested_intent,
}

-- As `Wrote`, for a reader that comes last: nothing follows.
pub record Ends {A : Type 0} (w w' : Bytes) (n n' : ℕ) (read : Reader A) (a : A) : Type 0 where
  pub content : Bytes
  pub added : w' ≡ w ++ content
  pub reads : read (stands content n) ≡ ok (a, stands [] n')

pub ends :
    {A : Type 0} {w w' : Bytes} {n n' : ℕ} {read : Reader A} {a : A}
    → Wrote w w' n n' read a
    → Ends w w' n n' read a
ends {n} {n'} {read} {a} p = record {
  content = p.content;
  added = p.added;
  reads = subst (λ c. read (stands c n) ≡ ok (a, stands [] n')) (append-nil p.content) (p.reads []);
}

pub then_last :
    {A B : Type 0} {w w' w'' : Bytes} {n n' n'' : ℕ} {read : Reader A} {a : A} {b : B}
    (rest : A → Reader B)
    → Wrote w w' n n' read a
    → Ends w' w'' n' n'' (rest a) b
    → Ends w w'' n n'' (read >>= rest) b
then_last {w} {n} {read} rest p q = record {
  content = p.content ++ q.content;
  added =
      q.added ∙ (ap (λ (v : Bytes). v ++ q.content) p.added ∙ append_assoc w p.content q.content);
  reads = rw (p.reads q.content, ◌>>=◌) q.reads;
}

pub passed :
    {B : Type 0} {w w' : Bytes} {n n' : ℕ} {b : B} {check : Result ShardError (Unit {0})}
    (rest : Reader B)
    → check ≡ ok tt
    → Wrote w w' n n' rest b
    → Wrote w w' n n' (give check >>= λ _. rest) b
passed rest went q = then_wrote {a = tt} (λ _. rest) (gave went) q

abbrev fine : Bytes → Result ShardError Bytes
fine w = ok w

pub moved :
    {A : Type 0} {w v w' : Bytes} {n n' : ℕ} {read : Reader A} {a : A}
    → fine v ≡ ok w'
    → Wrote w v n n' read a
    → Wrote w w' n n' read a
moved {w} {v} {w'} {n} {n'} {read} {a} went wrote =
    let same : v ≡ w' = cc in subst (λ u. Wrote w u n n' read a) same wrote

-- A check that passes.
pub then_checked :
    {B : Type 0} {w w' : Bytes} {n n' : ℕ} {b : B} {check : Result ShardError (Unit {0})}
    (rest : Reader B)
    → check ≡ ok tt
    → Ends w w' n n' rest b
    → Ends w w' n n' (give check >>= λ _. rest) b
then_checked rest passed q = then_last {a = tt} (λ _. rest) (gave passed) q

-- What is read when nothing is left.
pub ended :
    {A B : Type 0} {w w' : Bytes} {n n' n'' : ℕ} {read : Reader A} {a : A} {b : B}
    (rest : A → Reader B)
    → Ends w w' n n' read a
    → rest a (stands [] n') ≡ ok (b, stands [] n'')
    → Ends w w' n n'' (read >>= rest) b
ended rest p last = record {
  content = p.content;
  added = p.added;
  reads = rw (p.reads, ◌>>=◌) last;
}

-- Readers that start with a number do not succeed on nothing.
pub u32_first :
    {A : Type 0} (rest : ℕ → Reader A) (code : Bytes) (n : ℕ) {out : A × Decoder}
    → (get_u32 >>= rest) (stands code n) ≡ ok out
    → is_nil code ≡ false
unfolding get_number take_bytes
u32_first rest [] n went = let no_way : ⊥ = cc in absurd no_way
u32_first rest (b ∷ code) n went = refl

pub u8_first :
    {A : Type 0} (rest : ℕ → Reader A) (code : Bytes) (n : ℕ) {out : A × Decoder}
    → (get_u8 >>= rest) (stands code n) ≡ ok out
    → is_nil code ≡ false
unfolding get_number take_bytes
u8_first rest [] n went = let no_way : ⊥ = cc in absurd no_way
u8_first rest (b ∷ code) n went = refl

-- The end of the bytes, and what is checked there.
pub finished_then :
    {B : Type 0} {w : Bytes} {n n' : ℕ} {b : B} (rest : Reader B)
    → rest (stands [] n) ≡ ok (b, stands [] n')
    → Ends w w n n' (finished >>= λ _. rest) b
unfolding finished
finished_then {w} rest last = record { content = []; added = sym (append-nil w); reads = last }

-- A reader of all the bytes.
pub read_all-Ends :
    {A : Type 0} (read : Reader A) (code : Bytes) (n : ℕ) (a : A)
    → Ends [] code max_allocation_items n read a
    → is_nil code ≡ false
    → length code ≤ max_command_bytes
    → read_all read code ≡ ok a
unfolding new_decoder
read_all-Ends read code n a e full small =
    let big : ltb max_command_bytes (length code) ≡ false = ground arith in
    let made : new_decoder code ≡ ok (stands code max_allocation_items) =
      rw (new_decoder, full, big) refl in
    let reads : read (stands code max_allocation_items) ≡ ok (a, stands [] n) =
      subst (λ c. read (stands c max_allocation_items) ≡ ok (a, stands [] n)) (sym e.added)
        e.reads in
    rw (made, read_all) (ap value_of reads)

pub length-finish :
    (w code : Bytes) → finish w ≡ ok code → (w ≡ code) × (length code ≤ max_command_bytes)
unfolding finish
length-finish w code went = ground arith

pub record IsHeader (h : CommandHeader) : Type 0 where
  pub id_made : command_id h.command_id ≡ ok h.command_id
  pub id_bound : h.command_id < 2 ^ 128
  pub epoch_bound : h.placement_epoch < 2 ^ 64
  pub generation_bound : h.backend_generation < 2 ^ 64
  pub made : new_header h.command_id h.placement_epoch h.backend_generation ≡ ok h

pub wrote_header :
    (w : Bytes) (h : CommandHeader) (n : ℕ) → IsHeader h → Wrote w (put_header h w) n n get_header h
unfolding get_header
wrote_header w h n v =
    then_wrote _ (wrote_id w h.command_id n checked_command v.id_bound (ap from_storage v.id_made))
      (then_wrote _ (wrote_u64 (u128 h.command_id w) h.placement_epoch n v.epoch_bound) (
        then_wrote _
          (wrote_u64 (u64 h.placement_epoch (u128 h.command_id w)) h.backend_generation n
            v.generation_bound)
          (gave v.made)))

pub wrote_small_id :
    (w : Bytes) (id n : ℕ)
    → id < 2 ^ 64
    → identifier id ≡ ok id
    → Wrote w (u64 id w) n n get_small_id id
wrote_small_id w id n bound made =
    then_wrote _ (wrote_u64 w id n bound) (gave (ap from_kernel made))

pub record IsIntent (i : ParticipantIntent) : Type 0 where
  pub id_made : identifier i.transaction_id ≡ ok i.transaction_id
  pub id_bound : i.transaction_id < 2 ^ 128
  pub shard_made : identifier i.shard_id ≡ ok i.shard_id
  pub shard_bound : i.shard_id < 2 ^ 64
  pub time_bound : i.start_time < 2 ^ 63
  pub index_bound : i.snapshot_applied_index < 2 ^ 64
  pub mutations_made : All IsMutation i.mutations

-- What the encoding of an intent has checked.
record Encoded (i : ParticipantIntent) (code : Bytes) : Type 0 where
  valid : validate_intent_mutations i.mutations ≡ ok tt
  body : put_mutations i.mutations (intent_head i) ≡ ok code
  small : length code ≤ max_intent_bytes

encode_intent-ok :
    (i : ParticipantIntent) (code : Bytes) → encode_intent i ≡ ok code → Encoded i code
unfolding encode_intent
encode_intent-ok i code went =
    let (u, valid, went1) = >>=-eq-ok (validate_intent_mutations i.mutations) _ went in
    let (w, put, went2) = >>=-eq-ok (put_mutations i.mutations (intent_head i)) _ went1 in
    let (e, done, went3) = >>=-eq-ok (finish w) _ went2 in
    let (same, small) = length-finish w e done in
    let whole : e ≡ code = ground arith in
    record { valid = valid; body = put ∙ ap ok (same ∙ whole); small = ground arith }

few_mutations :
    (ms : List LogicalMutation)
    → validate_intent_mutations ms ≡ ok tt
    → length ms ≤ max_intent_items
unfolding validate_intent_mutations
few_mutations ms valid = ground arith

read_intent :
    (i : ParticipantIntent) (code : Bytes)
    → IsIntent i
    → encode_intent i ≡ ok code
    → (n : ℕ) × Ends [] code max_allocation_items n get_intent i
unfolding get_intent new_intent
read_intent i code h went =
    let e = encode_intent-ok i code went in
    let w1 = u32 intent_version [] in
    let w2 = u128 i.transaction_id w1 in
    let w3 = u64 i.shard_id w2 in
    let w4 = i64 (pos i.start_time) w3 in
    let (n, wrote) =
      wrote_mutations i.mutations (intent_head i) code max_intent_items
        "transaction intent mutation count is outside the supported bounds" h.mutations_made
        (few_mutations i.mutations e.valid) e.body in
    let made : new_intent i ≡ ok i = rw (new_intent, e.valid, went) refl in
    (
      n,
      then_last _ (wrote_u32 [] intent_version max_allocation_items (omega arith)) (
          then_checked _ refl (
            then_last _
              (wrote_id w1 i.transaction_id max_allocation_items kernel_id h.id_bound
                (ap from_kernel h.id_made))
              (then_last _
                (wrote_small_id w2 i.shard_id max_allocation_items h.shard_bound h.shard_made)
                (then_last _ (wrote_time w3 i.start_time max_allocation_items h.time_bound) (
                  then_last _
                    (wrote_u64 w4 i.snapshot_applied_index max_allocation_items h.index_bound)
                    (then_last _ wrote
                      (finished_then _ (ap (λ r. give r (stands [] n)) made)))))))),
    )

intent_starts :
    (i : ParticipantIntent) (code : Bytes) (n n' : ℕ)
    → get_intent (stands code n) ≡ ok (i, stands [] n')
    → is_nil code ≡ false
unfolding get_intent
intent_starts i code n n' went = u32_first _ code n went

-- An intent as the constructors make it, with numbers that fit their types, is read back from its bytes.
pub decode_intent-encode_intent :
    (i : ParticipantIntent) (code : Bytes)
    → IsIntent i
    → encode_intent i ≡ ok code
    → decode_intent code ≡ ok i
unfolding decode_intent
decode_intent-encode_intent i code h went =
    let e = encode_intent-ok i code went in
    let small = e.small in
    let (n, read) = read_intent i code h went in
    let full : is_nil code ≡ false =
      subst (λ c. is_nil c ≡ false) (sym read.added)
        (intent_starts i read.content max_allocation_items n read.reads) in
    let fits : ltb max_intent_bytes (length code) ≡ false = ground arith in
    rw fits (read_all-Ends get_intent code n i read full (omega arith))

pub wrote_intent :
    (w w' : Bytes) (i : ParticipantIntent) (n : ℕ)
    → IsIntent i
    → put_intent i w ≡ ok w'
    → Wrote w w' n n get_nested_intent i
unfolding put_intent get_nested_intent
wrote_intent w w' i n h went =
    let (code, encoded, put) = >>=-eq-ok (encode_intent i) _ went in
    then_wrote _ (wrote_bytes w code w' n put) (gave (decode_intent-encode_intent i code h encoded))
