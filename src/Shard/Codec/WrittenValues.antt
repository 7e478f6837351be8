-- ===== src/Shard/Codec/WrittenValues.antt =====
-- Values as the encoder of crates/execution/dtg-shard/src/command.rs writes them and its decoder reads
-- them back.
use dtgproxy.Base.{
  ℕ, zero, suc, ◌^◌, ◌≤◌, ◌<◌, ◌≡◌, refl, sym, ap, subst, Bool, true, false, String, [], ◌∷◌, ◌++◌,
  arith, ltb, if◌then◌else◌, Result, ok, err, All, All-append, >>=-eq-ok,
}
use mathlib.Core.List.{append_assoc, append-nil}
use dtgproxy.Base.Bytes.{Bytes}
use dtgproxy.Base.Map.{Map, get, insert, contains_key}
use dtgproxy.Base.Strings.{text_key}
use dtgproxy.Storage.Mutation.{
  Value, null, boolean, integer, float_bits, bytes, string, list, map, Values, no_values, value,
  Fields, no_fields, field,
}
use dtgproxy.Shard.{ShardError}
use dtgproxy.Shard.Codec.{consume, refuse, fails, max_collection_items}
use dtgproxy.Shard.Codec.Encoder.{
  u8, u32, put_bytes, put_string, put_count, put_value, put_values, put_fields, count_values,
  count_fields, Writes, unbudgeted,
}
use dtgproxy.Shard.Codec.Decoder.{
  Reader, give, ◌>>=◌, get_u8, get_string, get_values, get_entries, get_value, value_arm,
  boolean_of, fields_of, collection_count,
}
use dtgproxy.Shard.Codec.Written.{
  Wrote, then_wrote, gave, wrote_u8, wrote_u64, wrote_i64, IsI64, wrote_bytes, wrote_string,
  wrote_collection_count,
}

abbrev pub entries_of : Fields → Map String Value
entries_of no_fields = []
entries_of (field k v fs) = (k, v) ∷ entries_of fs

fields_of-entries_of : (fs : Fields) → fields_of (entries_of fs) ≡ fs
fields_of-entries_of no_fields = refl
fields_of-entries_of (field k v fs) = ap (field k v) (fields_of-entries_of fs)

-- The second key may stand after the first: it is another one and not below it.
abbrev Follows : String → String → Type 0
Follows j k = (text_key.same j k ≡ false) × (text_key.less k j ≡ false)

abbrev AllFollow : String → Fields → Type 0
AllFollow j no_fields = Unit
AllFollow j (field k v fs) = Follows j k × AllFollow j fs

-- Integers and bit patterns that fit their types, and keys in the order of a `BTreeMap`.
unfoldable mutual
  pub IsValue : Value → Type 0
  IsValue null = Unit
  IsValue (boolean b) = Unit
  IsValue (integer n) = IsI64 n
  IsValue (float_bits n) = n < 2 ^ 64
  IsValue (bytes content) = Unit
  IsValue (string text) = Unit
  IsValue (list vs) = AreValues vs
  IsValue (map fs) = AreFields fs

  pub AreValues : Values → Type 0
  AreValues no_values = Unit
  AreValues (value v vs) = IsValue v × AreValues vs

  pub AreFields : Fields → Type 0
  AreFields no_fields = Unit
  AreFields (field k v fs) = IsValue v × (AllFollow k fs × AreFields fs)

insert-last :
    (k : String) (v : Value) (found : Map String Value)
    → All (λ e. Follows e.0 k) found
    → (insert k v found ≡ found ++ (k, v) ∷ []) × (contains_key k found ≡ false)
unfolding insert get
insert-last k v [] h = (refl, refl)
insert-last k v ((j, u) ∷ found) h =
    let (differs, above) = h.0 in
    let (last, missing) = insert-last k v found h.1 in
    (rw (differs, above, last) refl, rw differs missing)

-- All keys of the fields may stand after those found.
abbrev pub Above : Map String Value → Fields → Type 0
Above found no_fields = Unit
Above found (field k v fs) = All (λ e. Follows e.0 k) found × Above found fs

Above-one :
    (found : Map String Value) (k : String) (v : Value) (fs : Fields)
    → Above found fs
    → AllFollow k fs
    → Above (found ++ (k, v) ∷ []) fs
Above-one found k v no_fields h a = tt
Above-one found k v (field j u fs) h a = (
  All-append (λ e. Follows e.0 j) found ((k, v) ∷ []) h.0 (a.0, tt),
  Above-one found k v fs h.1 a.1,
)

pub Above-none : (fs : Fields) → Above [] fs
Above-none no_fields = tt
Above-none (field k v fs) = (tt, Above-none fs)

wrote_entry :
    {w w1 w2 w3 : Bytes} {n n' n'' : ℕ} (read : Reader Value) (message k : String) (v : Value)
    (count : ℕ) (found out : Map String Value)
    → All (λ e. Follows e.0 k) found
    → Wrote w w1 n n get_string k
    → Wrote w1 w2 n n' read v
    → Wrote w2 w3 n' n'' (get_entries read message count (found ++ (k, v) ∷ [])) out
    → Wrote w w3 n n'' (get_entries read message (suc count) found) out
unfolding get_entries
wrote_entry {w2} {w3} {n'} {n''} read message k v count found out after named wrote rest =
    let (last, missing) = insert-last k v found after in
    let unused : (if contains_key k found then fails message else ok tt) ≡ ok tt =
      rw missing refl in
    then_wrote _ named (
      then_wrote _ wrote (
        then_wrote _ (gave unused)
          (subst (λ m. Wrote w2 w3 n' n'' (get_entries read message count m) out) (sym last) rest)))

-- A length of a list or a map was written under its tag and taken from the budget.
put_count-ok :
    (tag : ℕ) (message : String) (count n n' : ℕ) (w w' : Bytes)
    → put_count tag message count w n ≡ ok (w', n')
    → (u32 count (u8 tag w) ≡ w') × (count ≤ 1000000) × (consume n count ≡ ok n')
unfolding put_count
put_count-ok tag message count n n' w w' went =
    let (u, small, went') = >>=-eq-ok (refuse (ltb max_collection_items count) message) _ went in
    let (left, took, done) = >>=-eq-ok (consume n count) _ went' in
    (ground arith, ground arith, ground arith)

wrote_tag_count :
    {A : Type 0} (tag : ℕ) (message : String) (count n n' n'' : ℕ) (w w' w'' : Bytes)
    (rest : ℕ → Reader A) {a : A}
    → put_count tag message count w n ≡ ok (w', n')
    → Wrote w' w'' n' n'' (rest count) a
    → Wrote (u8 tag w) w'' n n'' (collection_count >>= rest) a
wrote_tag_count tag message count n n' n'' w w' w'' rest {a} went wrote =
    let (put, small, took) = put_count-ok tag message count n n' w w' went in
    then_wrote rest (wrote_collection_count (u8 tag w) count n n' small took)
      (subst (λ v. Wrote v w'' n' n'' (rest count) a) (sym put) wrote)

abbrev finished_at : Bytes → ℕ → Writes
finished_at w n = ok (w, n)

pub settled :
    {A : Type 0} {w w1 w' : Bytes} {n n1 n' : ℕ} {read : Reader A} {a : A}
    → finished_at w1 n1 ≡ ok (w', n')
    → Wrote w w1 n n1 read a
    → Wrote w w' n n' read a
settled {w} {w1} {w'} {n} {n1} {n'} {read} {a} went wrote =
    let same : w1 ≡ w' = cc in
    let left : n1 ≡ n' = cc in
    subst (λ m. Wrote w w' n m read a) left (subst (λ v. Wrote w v n n1 read a) same wrote)

-- What was put without regard to the budget.
pub unbudgeted_wrote :
    {A : Type 0} {w w' : Bytes} {n n' : ℕ} {read : Reader A} {a : A} (put : Result ShardError Bytes)
    → unbudgeted n put ≡ ok (w', n')
    → ((v : Bytes) → put ≡ ok v → Wrote w v n n read a)
    → Wrote w w' n n' read a
unbudgeted_wrote (ok v) went wrote = settled went (wrote v refl)
unbudgeted_wrote (err e) went wrote = let no_way : ⊥ = cc in absurd no_way

wrote_under :
    {A : Type 0} (tag n n' : ℕ) (w w' : Bytes) (read : ℕ → Reader A) (a : A)
    → Wrote (u8 tag w) w' n n' (read tag) a
    → Wrote w w' n n' (get_u8 >>= read) a
wrote_under tag n n' w w' read a wrote = then_wrote read (wrote_u8 w tag n) wrote

wrote_scalar :
    {A : Type 0} {w w' : Bytes} {n n' : ℕ} {read : Reader A} {a : A} (make : A → Value)
    → Wrote w w' n n' read a
    → Wrote w w' n n' (read >>= λ x. give (ok (make x))) (make a)
wrote_scalar make wrote = then_wrote (λ x. give (ok (make x))) wrote (gave refl)

boolean_of_lem : (b : Bool) → boolean_of (if b then 1 else 0) ≡ ok (boolean b)
boolean_of_lem true = refl
boolean_of_lem false = refl

mutual
  unfolding put_value get_value value_arm IsValue get_values get_entries

  pub wrote_value :
      (v : Value) (levels n n' : ℕ) (w w' : Bytes)
      → IsValue v
      → put_value v levels w n ≡ ok (w', n')
      → Wrote w w' n n' (get_value levels) v
  wrote_value v zero n n' w w' h went = let no_way : ⊥ = cc in absurd no_way
  wrote_value null (suc levels) n n' w w' h went =
      wrote_under 0 n n' w w' (value_arm (get_value levels)) null (settled went (gave refl))
  wrote_value (boolean b) (suc levels) n n' w w' h went =
      wrote_under 1 n n' w w' (value_arm (get_value levels)) (boolean b) (
        settled went
          (then_wrote _ (wrote_u8 (u8 1 w) (if b then 1 else 0) n) (gave (boolean_of_lem b))))
  wrote_value (integer i) (suc levels) n n' w w' h went =
      wrote_under 2 n n' w w' (value_arm (get_value levels)) (integer i)
        (settled went (wrote_scalar integer (wrote_i64 (u8 2 w) i n h)))
  wrote_value (float_bits b) (suc levels) n n' w w' h went =
      wrote_under 3 n n' w w' (value_arm (get_value levels)) (float_bits b)
        (settled went (wrote_scalar float_bits (wrote_u64 (u8 3 w) b n h)))
  wrote_value (bytes content) (suc levels) n n' w w' h went =
      wrote_under 4 n n' w w' (value_arm (get_value levels)) (bytes content) (
        unbudgeted_wrote (put_bytes content (u8 4 w)) went
          (λ v put. wrote_scalar bytes (wrote_bytes (u8 4 w) content v n put)))
  wrote_value (string text) (suc levels) n n' w w' h went =
      wrote_under 5 n n' w w' (value_arm (get_value levels)) (string text) (
        unbudgeted_wrote (put_string text (u8 5 w)) went
          (λ v put. wrote_scalar string (wrote_string (u8 5 w) v text n put)))
  wrote_value (list vs) (suc levels) n n' w w' h went =
      let (counted, put, rest) =
        >>=-eq-ok (put_count 6 "value list is too large" (count_values vs) w n) _ went in
      wrote_under 6 n n' w w' (value_arm (get_value levels)) (list vs) (
        wrote_tag_count 6 "value list is too large" (count_values vs) n counted.1 n' w counted.0 w'
          _ put (wrote_scalar list (wrote_values vs levels counted.1 n' counted.0 w' h rest)))
  wrote_value (map fs) (suc levels) n n' w w' h went =
      let (counted, put, rest) =
        >>=-eq-ok (put_count 7 "value map is too large" (count_fields fs) w n) _ went in
      wrote_under 7 n n' w w' (value_arm (get_value levels)) (map fs) (
        wrote_tag_count 7 "value map is too large" (count_fields fs) n counted.1 n' w counted.0 w' _
          put
          (then_wrote _
            (wrote_fields fs levels counted.1 n' counted.0 w' [] "duplicate value-map key" h
              (Above-none fs) rest)
            (gave (ap (λ x. ok (map x)) (fields_of-entries_of fs)))))

  wrote_values :
      (vs : Values) (levels n n' : ℕ) (w w' : Bytes)
      → AreValues vs
      → put_values vs levels w n ≡ ok (w', n')
      → Wrote w w' n n' (get_values (get_value levels) (count_values vs)) vs
  wrote_values no_values levels n n' w w' h went = settled went (gave refl)
  wrote_values (value v vs) levels n n' w w' h went =
      let (after, put, rest) = >>=-eq-ok (put_value v levels w n) _ went in
      then_wrote _ (wrote_value v levels n after.1 w after.0 h.0 put)
        (then_wrote _ (wrote_values vs levels after.1 n' after.0 w' h.1 rest) (gave refl))

  pub wrote_fields :
      (fs : Fields) (levels n n' : ℕ) (w w' : Bytes) (found : Map String Value) (message : String)
      → AreFields fs
      → Above found fs
      → put_fields fs levels w n ≡ ok (w', n')
      → Wrote w w' n n'
          (get_entries (get_value levels) message (count_fields fs) found)
          (found ++ entries_of fs)
  wrote_fields no_fields levels n n' w w' found message h above went =
      settled went (gave (ap ok (sym (append-nil found))))
  wrote_fields (field k v fs) levels n n' w w' found message h above went =
      let (named, put_name, went') = >>=-eq-ok (put_string k w) _ went in
      let (after, put, rest) = >>=-eq-ok (put_value v levels named n) _ went' in
      wrote_entry (get_value levels) message k v (count_fields fs) found
        (found ++ (k, v) ∷ entries_of fs) above.0 (wrote_string w named k n put_name)
        (wrote_value v levels n after.1 named after.0 h.0 put)
        (subst
          (λ m.
            Wrote after.0 w' after.1 n'
              (get_entries (get_value levels) message (count_fields fs) (found ++ (k, v) ∷ [])) m)
          (append_assoc found ((k, v) ∷ []) (entries_of fs))
          (wrote_fields fs levels after.1 n' after.0 w' (found ++ (k, v) ∷ []) message h.1.1
            (Above-one found k v fs above.1 h.1.0) rest))
