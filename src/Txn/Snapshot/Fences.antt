-- ===== src/Txn/Snapshot/Fences.antt =====
-- What a snapshot token promises to the reads that it fences.
use dtgproxy.Base.{
  ℕ, ◌≤◌, ◌≡◌, ◌≢◌, refl, subst, inl, inr, false, none, some, List, [], ◌∷◌, arith, any, All,
  ==_iff, ok, Result-cases, ==-self,
}
use dtgproxy.Base.Map.{
  Map, get, insert, values, AllValues, AllValues-insert, get-insert, get-insert_self, nat_key,
}
use dtgproxy.Kernel.{TransactionTime}
use dtgproxy.Txn.Snapshot.{
  ShardSnapshotFence, SnapshotToken, collect_fences, snapshot_token, validate_read_time,
  closed_before,
}

abbrev pub IsClosed : TransactionTime → ShardSnapshotFence → Type 0
IsClosed start_time fence = start_time ≤ fence.closed_time

abbrev pub IsApart : List (ℕ × ShardSnapshotFence) → Type 0
IsApart [] = Unit {0}
IsApart ((id, fence) ∷ rest) = All (λ p. p.0 ≢ id) rest × IsApart rest

-- One round of the loop, when it goes on.
collect_step :
    (start_time : TransactionTime) (shards : Map ℕ ShardSnapshotFence) (id : ℕ)
    (fence : ShardSnapshotFence) (rest : List (ℕ × ShardSnapshotFence))
    (out : Map ℕ ShardSnapshotFence)
    → collect_fences start_time shards ((id, fence) ∷ rest) ≡ ok out
    → IsClosed start_time fence
      × (get id shards ≡ none)
      × (collect_fences start_time (insert id fence shards) rest ≡ ok out)
unfolding collect_fences
collect_step start_time shards id fence rest out e = ground arith

collect_keeps :
    (start_time : TransactionTime) (shards : Map ℕ ShardSnapshotFence)
    (list : List (ℕ × ShardSnapshotFence)) (out : Map ℕ ShardSnapshotFence) (id : ℕ)
    (fence : ShardSnapshotFence)
    → collect_fences start_time shards list ≡ ok out
    → get id shards ≡ some fence
    → (get id out ≡ some fence) × All (λ p. p.0 ≢ id) list
unfolding collect_fences
collect_keeps start_time shards [] out id fence e held = (ground arith, tt)
collect_keeps start_time shards ((i, f) ∷ rest) out id fence e held =
    let (closed, free, next) = collect_step start_time shards i f rest out e in
    let other : i ≢ id = λ same. ground arith in
    let still : get id (insert i f shards) ≡ some fence =
      ground (arith, get-insert i id f shards, ==_iff i id) in
    let (kept, apart) = collect_keeps start_time (insert i f shards) rest out id fence next still in
    (kept, (other, apart))

collect-IsClosed :
    (start_time : TransactionTime) (shards : Map ℕ ShardSnapshotFence)
    (list : List (ℕ × ShardSnapshotFence)) (out : Map ℕ ShardSnapshotFence)
    → collect_fences start_time shards list ≡ ok out
    → AllValues (IsClosed start_time) shards
    → AllValues (IsClosed start_time) out
unfolding collect_fences
collect-IsClosed start_time shards [] out e h =
    let same : shards ≡ out = ground arith in subst (AllValues (IsClosed start_time)) same h
collect-IsClosed start_time shards ((i, f) ∷ rest) out e h =
    let (closed, free, next) = collect_step start_time shards i f rest out e in
    collect-IsClosed start_time (insert i f shards) rest out next
      (AllValues-insert (IsClosed start_time) i f shards closed h)

collect_holds :
    (start_time : TransactionTime) (shards : Map ℕ ShardSnapshotFence)
    (list : List (ℕ × ShardSnapshotFence)) (out : Map ℕ ShardSnapshotFence)
    → collect_fences start_time shards list ≡ ok out
    → All (λ p. get p.0 out ≡ some p.1) list × IsApart list
collect_holds start_time shards [] out e = (tt, tt)
collect_holds start_time shards ((i, f) ∷ rest) out e =
    let (closed, free, next) = collect_step start_time shards i f rest out e in
    let (held, apart) =
      collect_keeps start_time (insert i f shards) rest out i f next (get-insert_self i f shards) in
    let (later, apart') = collect_holds start_time (insert i f shards) rest out next in
    ((held, later), (apart, apart'))

open_to_reads :
    (t : TransactionTime) (m : Map ℕ ShardSnapshotFence)
    → AllValues (IsClosed t) m
    → any (closed_before t) (values m) ≡ false
open_to_reads t [] h = refl
open_to_reads t ((i, f) ∷ m) h = ground (arith, open_to_reads t m h.1)

-- What holds of every token that the constructor makes.
pub record IsFenced (fences : List (ℕ × ShardSnapshotFence)) (token : SnapshotToken) : Type 0 where
  pub catalog_known : token.catalog_version ≢ 0
  pub closed : AllValues (IsClosed token.start_time) token.shards
  pub holds : All (λ p. get p.0 token.shards ≡ some p.1) fences
  pub apart : IsApart fences

abbrev token_of : ℕ → TransactionTime → ℕ → Map ℕ ShardSnapshotFence → SnapshotToken
token_of id start_time catalog_version shards = record {
  transaction_id = id;
  start_time = start_time;
  catalog_version = catalog_version;
  shards = shards;
}

snapshot_token-inverse :
    (id : ℕ) (start_time : TransactionTime) (catalog_version : ℕ)
    (fences : List (ℕ × ShardSnapshotFence)) (token : SnapshotToken)
    → snapshot_token id start_time catalog_version fences ≡ ok token
    → (catalog_version ≢ 0)
      × ((shards : Map ℕ ShardSnapshotFence) × (collect_fences start_time [] fences ≡ ok shards)
          × (token_of id start_time catalog_version shards ≡ token))
unfolding snapshot_token
snapshot_token-inverse id start_time catalog_version fences token e =
    elim (Result-cases (collect_fences start_time [] fences)) [
      | inl (shards, made) ↦ (λ z. ground arith, (shards, made, ground arith))
      | inr (_, failed) ↦ let no_way : ⊥ = ground arith in absurd no_way
    ]

accepts_start :
    (id : ℕ) (start_time : TransactionTime) (catalog_version : ℕ)
    (shards : Map ℕ ShardSnapshotFence)
    → AllValues (IsClosed start_time) shards
    → validate_read_time (token_of id start_time catalog_version shards) start_time ≡ ok tt
unfolding validate_read_time
accepts_start id start_time catalog_version shards h =
    rw (==-self start_time, open_to_reads start_time shards h)

-- A token that is made holds the fence of every shard that was listed, no shard was listed twice,
-- every fence is closed up to the start time, and a read at the start time is accepted.
pub snapshot_token-IsFenced :
    (id : ℕ) (start_time : TransactionTime) (catalog_version : ℕ)
    (fences : List (ℕ × ShardSnapshotFence)) (token : SnapshotToken)
    → snapshot_token id start_time catalog_version fences ≡ ok token
    → IsFenced fences token × (validate_read_time token start_time ≡ ok tt)
snapshot_token-IsFenced id start_time catalog_version fences token e =
    let (known, (shards, made, same)) =
      snapshot_token-inverse id start_time catalog_version fences token e in
    let closed = collect-IsClosed start_time [] fences shards made tt in
    let (held, apart) = collect_holds start_time [] fences shards made in
    let fenced : IsFenced fences (token_of id start_time catalog_version shards) = record {
      catalog_known = known;
      closed = closed;
      holds = held;
      apart = apart;
    } in
    subst (λ t. IsFenced fences t × (validate_read_time t start_time ≡ ok tt)) same
      (fenced, accepts_start id start_time catalog_version shards closed)
