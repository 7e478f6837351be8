-- ===== src/Shard/Codec/Written.antt =====
-- What an encoder has written and a decoder reads back, for the parts of
-- crates/execution/dtg-shard/src/command.rs.
use dtgproxy.Base.{
  ℕ, ◌+◌, ◌^◌, ◌≤◌, ◌<◌, ◌≡◌, refl, sym, ap, ◌∙◌, subst, false, String, [], ◌∷◌, ◌++◌, arith,
  length, take-append, drop-append, length-append, ltb, ℤ, pos, negsuc, Result, ok,
}
use mathlib.Core.List.{append_assoc, append-nil}
use dtgproxy.Base.Bytes.{
  Bytes, to_be_bytes, from_be_bytes, from_be_loop, signed64, from_be_loop-to_be_bytes,
  length-to_be_bytes,
}
use dtgproxy.Base.Utf8.{as_bytes, from_utf8-as_bytes}
use dtgproxy.Shard.{ShardError}
use dtgproxy.Shard.Codec.{consume}
use dtgproxy.Shard.Codec.Encoder.{
  u8, u32, u64, u128, i64, pattern64, put_bytes, put_string, put_digest,
}
use dtgproxy.Shard.Codec.Decoder.{
  Decoder, Reader, give, ◌>>=◌, take_bytes, get_number, get_u8, get_u32, get_u64, get_u128, get_i64,
  get_bytes, get_string, get_digest, get_count, allocate, collection_count,
}

-- A decoder by what is left of its bytes and its allocation.
abbrev pub stands : Bytes → ℕ → Decoder
stands left n = record { left = left; remaining = n }

-- From one encoder to the next some bytes were added, and whatever follows them the reader takes
-- just these, returns the value, and leaves so many items.
pub record Wrote {A : Type 0} (w w' : Bytes) (n n' : ℕ) (read : Reader A) (a : A) : Type 0 where
  pub content : Bytes
  pub added : w' ≡ w ++ content
  pub reads : (rest : Bytes) → read (stands (content ++ rest) n) ≡ ok (a, stands rest n')

pub then_wrote :
    {A B : Type 0} {w w' w'' : Bytes} {n n' n'' : ℕ} {read : Reader A} {a : A} {b : B}
    (rest : A → Reader B)
    → Wrote w w' n n' read a
    → Wrote w' w'' n' n'' (rest a) b
    → Wrote w w'' n n'' (read >>= rest) b
then_wrote {w} {n} {read} rest p q = record {
  content = p.content ++ q.content;
  added =
      q.added ∙ (ap (λ (v : Bytes). v ++ q.content) p.added ∙ append_assoc w p.content q.content);
  reads = λ more.
      rw (append_assoc p.content q.content more, p.reads (q.content ++ more), ◌>>=◌) (q.reads more);
}

pub gave :
    {A : Type 0} {w : Bytes} {n : ℕ} {r : Result ShardError A} {a : A}
    → r ≡ ok a
    → Wrote w w n n (give r) a
gave {w} e = record { content = []; added = sym (append-nil w); reads = λ rest. rw (e, give) refl }

pub took_bytes :
    (w content : Bytes) (n : ℕ) → Wrote w (w ++ content) n n (take_bytes (length content)) content
unfolding take_bytes
took_bytes w content n = record {
  content = content;
  added = refl;
  reads = λ rest.
      let room : ltb (length (content ++ rest)) (length content) ≡ false =
        ground (arith, length-append {0} content rest) in
      rw (room, take-append content rest, drop-append content rest) refl;
}

-- A number of the given number of bytes.
wrote_number :
    (w : Bytes) (width n k : ℕ)
    → n < 256 ^ width
    → Wrote w (w ++ to_be_bytes width n) k k (get_number width) n
unfolding get_number from_be_bytes
wrote_number w width n k bound =
    let took =
      subst (λ l. Wrote w (w ++ to_be_bytes width n) k k (take_bytes l) (to_be_bytes width n))
        (length-to_be_bytes width n) (took_bytes w (to_be_bytes width n) k) in
    let same : from_be_bytes (to_be_bytes width n) ≡ n =
      from_be_loop-to_be_bytes width 0 n bound ∙ omega arith in
    then_wrote _ took (gave (ap ok same))

pub wrote_u8 : (w : Bytes) (n k : ℕ) → Wrote w (u8 n w) k k get_u8 n
unfolding get_number from_be_bytes from_be_loop
wrote_u8 w n k =
    let same : 0 + n ≡ n = omega arith in then_wrote _ (took_bytes w (n ∷ []) k) (gave (ap ok same))

pub wrote_u32 : (w : Bytes) (n k : ℕ) → n < 2 ^ 32 → Wrote w (u32 n w) k k get_u32 n
wrote_u32 w n k bound = wrote_number w 4 n k bound

pub wrote_u64 : (w : Bytes) (n k : ℕ) → n < 2 ^ 64 → Wrote w (u64 n w) k k get_u64 n
wrote_u64 w n k bound = wrote_number w 8 n k bound

pub wrote_u128 : (w : Bytes) (n k : ℕ) → n < 2 ^ 128 → Wrote w (u128 n w) k k get_u128 n
wrote_u128 w n k bound = wrote_number w 16 n k bound

-- The range of an `i64`.
abbrev pub IsI64 : ℤ → Type 0
IsI64 (pos n) = n < 2 ^ 63
IsI64 (negsuc n) = n < 2 ^ 63

pattern_bound : (n : ℤ) → IsI64 n → pattern64 n < 2 ^ 64
unfolding pattern64
pattern_bound (pos n) h = omega arith
pattern_bound (negsuc n) h = omega arith

signed64-pattern64 : (n : ℤ) → IsI64 n → signed64 (pattern64 n) ≡ n
unfolding signed64 pattern64
signed64-pattern64 (pos n) h = ground arith
signed64-pattern64 (negsuc n) h = ground arith

pub wrote_i64 : (w : Bytes) (n : ℤ) (k : ℕ) → IsI64 n → Wrote w (i64 n w) k k get_i64 n
unfolding get_i64
wrote_i64 w n k h =
    then_wrote _ (wrote_number w 8 (pattern64 n) k (pattern_bound n h))
      (gave (ap ok (signed64-pattern64 n h)))

pub wrote_length_and_bytes :
    (w content : Bytes) (k : ℕ)
    → length content < 2 ^ 32
    → Wrote w (u32 (length content) w ++ content) k k get_bytes content
unfolding get_bytes
wrote_length_and_bytes w content k bound =
    then_wrote _ (wrote_u32 w (length content) k bound)
      (took_bytes (u32 (length content) w) content k)

pub wrote_bytes :
    (w content w' : Bytes) (k : ℕ) → put_bytes content w ≡ ok w' → Wrote w w' k k get_bytes content
unfolding put_bytes
wrote_bytes w content w' k went =
    let bound : length content < 2 ^ 32 = ground arith in
    let after : u32 (length content) w ++ content ≡ w' = ground arith in
    subst (λ v. Wrote w v k k get_bytes content) after (wrote_length_and_bytes w content k bound)

pub wrote_string :
    (w w' : Bytes) (text : String) (k : ℕ)
    → put_string text w ≡ ok w'
    → Wrote w w' k k get_string text
unfolding get_string
wrote_string w w' text k went =
    then_wrote _ (wrote_bytes w (as_bytes text) w' k went)
      (gave (rw (from_utf8-as_bytes text) refl))

digest_of_bytes :
    {w w' : Bytes} (digest k : ℕ)
    → digest < 2 ^ 256
    → Wrote w w' k k get_bytes (to_be_bytes 32 digest)
    → Wrote w w' k k get_digest digest
unfolding get_digest from_be_bytes
digest_of_bytes digest k bound wrote =
    let same : from_be_bytes (to_be_bytes 32 digest) ≡ digest =
      from_be_loop-to_be_bytes 32 0 digest bound ∙ omega arith in
    then_wrote _ wrote (gave (rw (length-to_be_bytes 32 digest) (ap ok same)))

pub wrote_digest :
    (w w' : Bytes) (digest k : ℕ)
    → digest < 2 ^ 256
    → put_digest digest w ≡ ok w'
    → Wrote w w' k k get_digest digest
wrote_digest w w' digest k bound went =
    digest_of_bytes digest k bound (wrote_bytes w (to_be_bytes 32 digest) w' k went)

-- The digest of a record, which is put without a check of the size.
pub wrote_bare_digest :
    (w : Bytes) (digest k : ℕ)
    → digest < 2 ^ 256
    → Wrote w (u32 32 w ++ to_be_bytes 32 digest) k k get_digest digest
wrote_bare_digest w digest k bound =
    let length_is : length (to_be_bytes 32 digest) ≡ 32 = length-to_be_bytes 32 digest in
    digest_of_bytes digest k bound (
      subst (λ l. Wrote w (u32 l w ++ to_be_bytes 32 digest) k k get_bytes (to_be_bytes 32 digest))
        length_is (wrote_length_and_bytes w (to_be_bytes 32 digest) k (omega arith)))

pub wrote_count : (w : Bytes) (n k : ℕ) → n ≤ 1000000 → Wrote w (u32 n w) k k get_count n
unfolding get_count
wrote_count w n k bound =
    let small : ltb 1000000 n ≡ false = ground arith in
    then_wrote _ (wrote_u32 w n k (omega arith)) (gave (rw small refl))

pub allocated : (w : Bytes) (n k k' : ℕ) → consume k n ≡ ok k' → Wrote w w k k' (allocate n) tt
unfolding allocate
allocated w n k k' went = record {
  content = [];
  added = sym (append-nil w);
  reads = λ rest. rw (went, allocate) refl;
}

pub wrote_collection_count :
    (w : Bytes) (n k k' : ℕ)
    → n ≤ 1000000
    → consume k n ≡ ok k'
    → Wrote w (u32 n w) k k' collection_count n
unfolding collection_count
wrote_collection_count w n k k' bound went =
    then_wrote _ (wrote_count w n k bound)
      (then_wrote _ (allocated (u32 n w) n k k' went) (gave refl))
