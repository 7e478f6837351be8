-- ===== src/Shard/Durable/Index.antt =====
-- The index of active intents that a shard keeps in its store is read back
-- (crates/execution/dtg-shard/src/state_machine.rs).
use mathlib.Core.List.{append_assoc, append-nil}
use dtgproxy.Base.{
  ℕ, zero, suc, ◌+◌, ◌*◌, ◌^◌, ◌≡◌, ◌≤◌, ◌<◌, refl, sym, ap, ◌∙◌, subst, inl, inr, false, true,
  List, [], ◌∷◌, ◌++◌, arith, length, take, drop, take-append, drop-append, length-append, All,
  All-map, All-append, ltb, ◌==◌, ==_iff, Option, none, some, ok, Bool-cases,
}
use dtgproxy.Base.Bytes.{
  Bytes, to_be_bytes, from_be_bytes, from_be_loop-to_be_bytes, length-to_be_bytes,
}
use dtgproxy.Base.Map.{Map, insert, nat_key}
use dtgproxy.Base.Strings.{text_key}
use dtgproxy.Kernel.{identifier}
use dtgproxy.Storage.Mutation.{bytes, ReplicaMetadata, new_replica_metadata}
use dtgproxy.Shard.Command.{ParticipantIntent, max_intent_items}
use dtgproxy.Shard.Durable.{
  is_out_of_order, read_index, decode_active_intents_metadata, active_name,
}
use dtgproxy.Shard.Durable.States.{digest_number, index_bytes, active_intents_metadata}

take_bytes-first : (w n : ℕ) (rest : Bytes) → take w (to_be_bytes w n ++ rest) ≡ to_be_bytes w n
take_bytes-first w n rest =
    subst (λ l. take l (to_be_bytes w n ++ rest) ≡ to_be_bytes w n) (length-to_be_bytes w n)
      (take-append (to_be_bytes w n) rest)

first_number :
    (w n : ℕ) (rest : Bytes) → n < 256 ^ w → from_be_bytes (take w (to_be_bytes w n ++ rest)) ≡ n
unfolding from_be_bytes
first_number w n rest lt =
    ap from_be_bytes (take_bytes-first w n rest) ∙ from_be_loop-to_be_bytes w 0 n lt ∙ omega arith

drop_first : (w n : ℕ) (rest : Bytes) → drop w (to_be_bytes w n ++ rest) ≡ rest
drop_first w n rest =
    subst (λ l. drop l (to_be_bytes w n ++ rest) ≡ rest) (length-to_be_bytes w n)
      (drop-append (to_be_bytes w n) rest)

drop-nil : {A : Type 0} → (n : ℕ) → drop {A = A} n [] ≡ []
drop-nil zero = refl
drop-nil (suc n) = refl

drop-drop : {A : Type 0} → (a b : ℕ) (xs : List A) → drop (a + b) xs ≡ drop b (drop a xs)
drop-drop zero b xs = ap (λ n. drop n xs) (omega arith)
drop-drop (suc a) b [] =
    ap (λ n. drop n []) (let e : suc a + b ≡ suc (a + b) = omega arith in e) ∙ sym (drop-nil b)
drop-drop (suc a) b (x ∷ xs) =
    ap (λ n. drop n (x ∷ xs)) (let e : suc a + b ≡ suc (a + b) = omega arith in e)
    ∙ drop-drop a b xs

below_other : (j id : ℕ) → j < id → (j == id) ≡ false
below_other j id lt = elim (Bool-cases (j == id)) [
  | inl same ↦ let e = (==_iff j id).0 same in let no_way : ⊥ = omega arith in absurd no_way
  | inr other ↦ other
]

insert_last : (id d : ℕ) (m : Map ℕ ℕ) → All (λ e. e.0 < id) m → insert id d m ≡ m ++ ((id, d) ∷ [])
unfolding insert
insert_last id d [] below = refl
insert_last id d ((j, w) ∷ m) below =
    let other : (j == id) ≡ false = below_other j id below.0 in
    let later : ltb id j ≡ false = ground (arith, below.0) in
    let rest = insert_last id d m below.1 in ground arith

read_one :
    (content : Bytes) (n id d : ℕ) (p : Option ℕ) (indexed : Map ℕ ℕ)
    → from_be_bytes (take 16 content) ≡ id
    → 0 < id
    → is_out_of_order p id ≡ false
    → from_be_bytes (take 32 (drop 16 content)) ≡ d
    → read_index (suc n) content p indexed
      ≡ read_index n (drop 48 content) (some id) (insert id d indexed)
unfolding read_index identifier
read_one content n id d p indexed is positive ordered digest =
    let nonzero : (id == 0) ≡ false = ground arith in rw (is, nonzero, ordered, digest) refl

decode_content :
    (content : Bytes) (n : ℕ)
    → length content ≡ 8 + n * 48
    → n ≤ max_intent_items
    → from_be_bytes (take 4 content) ≡ 1
    → from_be_bytes (take 4 (drop 4 content)) ≡ n
    → decode_active_intents_metadata (record { name = active_name; value = bytes content })
      ≡ read_index n (drop 8 content) none []
unfolding decode_active_intents_metadata
decode_content content n long fits version count =
    let long_enough : ltb (8 + n * 48) 8 ≡ false = ground arith in
    let few : ltb max_intent_items n ≡ false = ground arith in
    let whole : ((8 + n * 48) == (8 + n * 48)) ≡ true = ground arith in
    rw (version, count, long, long_enough, few, whole) refl

-- Entries under ascending ids of 128 bits, with digests of 256 bits.
module _ (blake3 : Bytes → ℕ) where
  abbrev pub IsIndex : ℕ → Map ℕ ParticipantIntent → Type 0
  IsIndex lowest [] = Unit
  IsIndex lowest ((id, i) ∷ rest) =
      (lowest < id) × (id < 256 ^ 16) × (digest_number blake3 i < 256 ^ 32) × IsIndex id rest

  abbrev pub digests : Map ℕ ParticipantIntent → Map ℕ ℕ
  digests [] = []
  digests ((id, i) ∷ rest) = (id, digest_number blake3 i) ∷ digests rest

  length-index_bytes :
      (intents : Map ℕ ParticipantIntent)
      → length (index_bytes blake3 intents) ≡ length intents * 48
  length-index_bytes [] = refl
  length-index_bytes ((id, i) ∷ rest) =
      length-append (to_be_bytes 16 id)
        (to_be_bytes 32 (digest_number blake3 i) ++ index_bytes blake3 rest)
      ∙ let more =
          length-append (to_be_bytes 32 (digest_number blake3 i)) (index_bytes blake3 rest) in
        let one = length-to_be_bytes 16 id in
        let two = length-to_be_bytes 32 (digest_number blake3 i) in
        let rec = length-index_bytes rest in omega arith

  read_index_lem :
      (lowest : ℕ) (p : Option ℕ) (indexed : Map ℕ ℕ) (intents : Map ℕ ParticipantIntent)
      → ((id : ℕ) → lowest < id → is_out_of_order p id ≡ false)
      → All (λ e. e.0 ≤ lowest) indexed
      → IsIndex lowest intents
      → read_index (length intents) (index_bytes blake3 intents) p indexed
        ≡ ok (indexed ++ digests intents)
  unfolding read_index identifier
  read_index_lem lowest p indexed [] after below is = ap ok (sym (append-nil indexed))
  read_index_lem lowest p indexed ((id, i) ∷ rest) after below (above, small, short, is) =
      let d = digest_number blake3 i in
      let tail : Bytes = to_be_bytes 32 d ++ index_bytes blake3 rest in
      let second : from_be_bytes (take 32 (drop 16 (to_be_bytes 16 id ++ tail))) ≡ d =
        ap (λ x. from_be_bytes (take 32 x)) (drop_first 16 id tail)
        ∙ first_number 32 d (index_bytes blake3 rest) short in
      let left : drop 48 (to_be_bytes 16 id ++ tail) ≡ index_bytes blake3 rest =
        drop-drop 16 32 (to_be_bytes 16 id ++ tail)
        ∙ ap (drop 32) (drop_first 16 id tail)
        ∙ drop_first 32 d (index_bytes blake3 rest) in
      let entered =
        insert_last id d indexed
          (All-map (λ e. e.0 ≤ lowest) (λ e. e.0 < id) (λ e h. omega arith) indexed below) in
      let later =
        read_index_lem id (some id) (indexed ++ ((id, d) ∷ [])) rest (λ k lt. ground arith)
          (All-append (λ e. e.0 ≤ id) indexed ((id, d) ∷ [])
            (All-map (λ e. e.0 ≤ lowest) (λ e. e.0 ≤ id) (λ e h. omega arith) indexed below)
            (omega arith, tt))
          is in
      read_one (to_be_bytes 16 id ++ tail) (length rest) id d p indexed
        (first_number 16 id tail small) (omega arith) (after id above) second
      ∙ ap (λ x. read_index (length rest) x (some id) (insert id d indexed)) left
      ∙ ap (λ x. read_index (length rest) (index_bytes blake3 rest) (some id) x) entered
      ∙ later
      ∙ ap ok (append_assoc indexed ((id, d) ∷ []) (digests rest))

  -- The index that a shard writes for active intents under ascending ids is read back as their ids, each
  -- with the digest of its intent, where ids and digests fit their bytes.
  pub decode_active_intents_metadata-digests :
      (intents : Map ℕ ParticipantIntent) (m : ReplicaMetadata)
      → IsIndex 0 intents
      → active_intents_metadata blake3 intents ≡ ok m
      → decode_active_intents_metadata m ≡ ok (digests intents)
  unfolding active_intents_metadata new_replica_metadata decode_active_intents_metadata
  decode_active_intents_metadata-digests intents m is went =
      elim (Bool-cases (ltb max_intent_items (length intents))) [
        | inl too_many ↦ let no_way : ⊥ = ground arith in absurd no_way
        | inr fits ↦
            let body : record {
              name = active_name;
              value = bytes (
                  to_be_bytes 4 1
                  ++ (to_be_bytes 4 (length intents) ++ index_bytes blake3 intents));
            }
                ≡ m =
              ground arith in
            subst (λ x. decode_active_intents_metadata x ≡ ok (digests intents)) body
              (let n = length intents in
                let tail : Bytes = to_be_bytes 4 n ++ index_bytes blake3 intents in
                let long : length (to_be_bytes 4 1 ++ tail) ≡ 8 + n * 48 =
                  let one = length-append (to_be_bytes 4 1) tail in
                  let two = length-append (to_be_bytes 4 n) (index_bytes blake3 intents) in
                  let three = length-to_be_bytes 4 1 in
                  let four = length-to_be_bytes 4 n in
                  let five = length-index_bytes intents in omega arith in
                let few : n ≤ max_intent_items = ground arith in
                decode_content (to_be_bytes 4 1 ++ tail) n long few
                  (first_number 4 1 tail (omega arith))
                  (ap (λ x. from_be_bytes (take 4 x)) (drop_first 4 1 tail)
                    ∙ first_number 4 n (index_bytes blake3 intents) (omega arith))
                ∙ ap (λ x. read_index n x none [])
                    (drop-drop 4 4 (to_be_bytes 4 1 ++ tail)
                      ∙ ap (drop 4) (drop_first 4 1 tail)
                      ∙ drop_first 4 n (index_bytes blake3 intents))
                ∙ read_index_lem 0 none [] intents (λ k lt. refl) tt is)
      ]
