-- ===== src/Txn/Authority.antt =====
-- timestamp.rs, the authority over a command log: `stage_operation`, `apply_batch`, `open` and the
-- calls of the trait `TimestampAuthority`. The log is the list of its encoded commands, kept by
-- the lock with the state. `append_batch` appends a whole batch or, when it fails, none of it;
-- whether it fails is an argument.
pub mod Stage
pub mod Replay
pub mod Batching
use dtgproxy.Base.{
  ℕ, suc, ◌+◌, Option, none, some, List, [], ◌∷◌, ◌++◌, ◌==◌, if◌then◌else◌, Result, ok, err, ◌>>=◌,
  ◌>>◌, reject, ok_or, not, map, length, set,
}
use dtgproxy.Base.Map.{get, nat_key}
use dtgproxy.Kernel.{TransactionTime}
use dtgproxy.Txn.{TxnError, corrupt_recovery}
use dtgproxy.Base.Bytes.{Bytes}
use dtgproxy.Txn.Codec.{encode_command, decode_command}
use dtgproxy.Txn.Timestamp.{
  CommitResolution, CommitTimeReservation, TimestampOperation, allocate_start, reserve_commit,
  resolve_commit, TimestampCommand, start_allocated, commit_reserved, commit_resolved,
  TimestampState, initial, same_resolution, next_timestamp, next_start_time, apply,
}

abbrev pub Staged : Type 0
Staged = TransactionTime × Option TimestampCommand × TimestampState

pub stage_resolve :
    TimestampState
    → ℕ
    → TransactionTime
    → CommitResolution
    → Option CommitResolution
    → Result TxnError Staged
stage_resolve s id commit_time resolution (some existing) =
    if same_resolution existing resolution then ok (commit_time, none, s) else err corrupt_recovery
stage_resolve s id commit_time resolution none = do
  let command = commit_resolved id commit_time resolution
  s' ← apply s command
  ok (commit_time, some command, s')

-- The result comes with the state that `stage_operation` leaves in its argument.
pub stage_operation : TimestampState → TimestampOperation → Result TxnError Staged
stage_operation s (allocate_start id) = elim (get id s.start_times) [
  | some timestamp ↦ ok (timestamp, none, s)
  | none ↦ do
    timestamp ← next_start_time s
    let command = start_allocated id timestamp
    s' ← apply s command
    ok (timestamp, some command, s')
]
stage_operation s (reserve_commit id) = elim (get id s.reservations) [
  | some reservation ↦ ok (reservation.commit_time, none, s)
  | none ↦ do
    timestamp ← next_timestamp s
    let command = commit_reserved id timestamp
    s' ← apply s command
    ok (timestamp, some command, s')
]
stage_operation s (resolve_commit id commit_time resolution) = do
  reservation ← ok_or (get id s.reservations) corrupt_recovery
  reject (not (reservation.commit_time == commit_time)) corrupt_recovery
  stage_resolve s id commit_time resolution reservation.resolution

-- `Mutex<TimestampState>` and the log behind it.
pub record Authority : Type 0 where
  pub log : List Bytes
  pub state : TimestampState

-- The variables of the loop of `apply_batch`.
pub record Batch : Type 0 where
  pub staged : TimestampState
  pub commands : List Bytes
  pub results : List (Result TxnError TransactionTime)
  pub persisted : List ℕ

abbrev pub fail_at :
    List ℕ
    → TxnError
    → List (Result TxnError TransactionTime)
    → List (Result TxnError TransactionTime)
fail_at [] error results = results
fail_at (index ∷ persisted) error results = fail_at persisted error (set results index (err error))

module _ (blake3 : Bytes → Bytes) where
  pub persist : Batch → TransactionTime → Option TimestampCommand → TimestampState → Batch
  persist b timestamp none s' = record b { staged = s'; results = b.results ++ ok timestamp ∷ [] }
  persist b timestamp (some command) s' = record b {
    staged = s';
    commands = b.commands ++ encode_command blake3 command ∷ [];
    results = b.results ++ ok timestamp ∷ [];
    persisted = b.persisted ++ length b.results ∷ [];
  }

  -- One round of the loop. A failed operation leaves `staged` as it was.
  pub stage_one : Batch → TimestampOperation → Batch
  stage_one b operation = elim (stage_operation b.staged operation) [
    | ok (timestamp, command, s') ↦ persist b timestamp command s'
    | err error ↦ record b { results = b.results ++ err error ∷ [] }
  ]

  pub stage_all : Batch → List TimestampOperation → Batch
  stage_all b [] = b
  stage_all b (operation ∷ operations) = stage_all (stage_one b operation) operations

  -- What follows the loop.
  pub finish :
      Authority → Option TxnError → Batch → List (Result TxnError TransactionTime) × Authority
  finish a failure b = elim b.commands [
    | [] ↦ (b.results, a)
    | _ ∷ _ ↦ elim failure [
      | some error ↦ (fail_at b.persisted error b.results, a)
      | none ↦ (b.results, record { log = a.log ++ b.commands; state = b.staged })
    ]
  ]

  abbrev pub empty_batch : TimestampState → Batch
  empty_batch s = record { staged = s; commands = []; results = []; persisted = [] }

  pub apply_batch :
      Authority
      → Option TxnError
      → List TimestampOperation
      → List (Result TxnError TransactionTime) × Authority
  apply_batch a failure operations = finish a failure (stage_all (empty_batch a.state) operations)

  unfoldable pub replay : TimestampState → List Bytes → Result TxnError TimestampState
  replay s [] = ok s
  replay s (bytes ∷ log) = do
    command ← decode_command blake3 bytes
    s' ← apply s command
    replay s' log

  -- `DurableTimestampAuthority::open`
  unfoldable pub open_log : List Bytes → Result TxnError Authority
  open_log log = do s ← replay initial log; ok (record { log = log; state = s })
