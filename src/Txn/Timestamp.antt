-- ===== src/Txn/Timestamp.antt =====
-- crates/execution/dtg-transaction/src/timestamp.rs, the state machine of the timestamp authority, with the reservation types of
-- coordinator.rs. Transaction ids and times are numbers; `last_issued` and `published_frontier`
-- start at 0 and only take the values of transaction times, so they are numbers as well.
pub mod Steps
pub mod Frontier
pub mod Invariant
pub mod History
use dtgproxy.Base.{
  ℕ, zero, suc, ◌+◌, ◌-◌, Bool, true, false, ◌&&◌, not, Option, none, some, List, [], ◌∷◌, ltb,
  ◌==◌, if◌then◌else◌, is_some, any, pos, Result, ok, err, ◌>>=◌, ◌>>◌, reject, ok_or, map_err,
  i64_max, checked_add,
}
use dtgproxy.Base.Map.{Map, get, insert, replace, values, nat_key}
use dtgproxy.Kernel.{TransactionTime, transaction_time}
use dtgproxy.Txn.{TxnError, resource_limit, corrupt_recovery}

pub data CommitResolution : Type 0 where
  committed aborted : CommitResolution

-- `==` of the derived `PartialEq`
abbrev pub same_resolution : CommitResolution → CommitResolution → Bool
same_resolution committed committed = true
same_resolution aborted aborted = true
same_resolution _ _ = false

pub record CommitTimeReservation : Type 0 where
  pub commit_time : TransactionTime
  pub resolution : Option CommitResolution

pub data TimestampOperation : Type 0 where
  allocate_start : ℕ → TimestampOperation
  reserve_commit : ℕ → TimestampOperation
  resolve_commit : ℕ → TransactionTime → CommitResolution → TimestampOperation

pub data TimestampCommand : Type 0 where
  start_allocated : ℕ → TransactionTime → TimestampCommand
  commit_reserved : ℕ → TransactionTime → TimestampCommand
  commit_resolved : ℕ → TransactionTime → CommitResolution → TimestampCommand

pub record TimestampState : Type 0 where
  pub last_issued : ℕ
  pub published_frontier : ℕ
  pub start_times : Map ℕ TransactionTime
  pub reservations : Map ℕ CommitTimeReservation

-- `TimestampState::default()`
abbrev pub initial : TimestampState
initial = record { last_issued = 0; published_frontier = 0; start_times = []; reservations = [] }

unfoldable pub next_timestamp : TimestampState → Result TxnError TransactionTime
unfolding transaction_time
next_timestamp s = do
  value ← ok_or (checked_add i64_max s.last_issued 1) resource_limit
  map_err (transaction_time (pos value)) corrupt_recovery

abbrev pub is_pending : CommitTimeReservation → Bool
is_pending r = not (is_some r.resolution)

unfoldable pub next_start_time : TimestampState → Result TxnError TransactionTime
unfolding transaction_time next_timestamp
next_start_time s =
    if any is_pending (values s.reservations)
    then map_err (transaction_time (pos s.published_frontier)) corrupt_recovery
    else next_timestamp s

unfoldable pub apply_new_timestamp :
    TimestampState → TransactionTime → Result TxnError TimestampState
apply_new_timestamp s timestamp = do
  next ← ok_or (checked_add i64_max s.last_issued 1) corrupt_recovery
  reject (not (timestamp == next)) corrupt_recovery
  ok (record s { last_issued = timestamp })

-- the test of the `any` in the loop of `advance_published_frontier`
abbrev pub resolves : ℕ → CommitTimeReservation → Bool
resolves next r = r.commit_time == next && is_some r.resolution

-- One round for each time from the frontier to `last_issued`: where no round is left the test of
-- the `while` fails.
pub advance_loop : ℕ → TimestampState → Result TxnError TimestampState
advance_loop zero s = ok s
advance_loop (suc rounds) s =
    let rest = λ (next : ℕ). advance_loop rounds (record s { published_frontier = next }) in
    if ltb s.published_frontier s.last_issued
    then (do
      next ← ok_or (checked_add i64_max s.published_frontier 1) corrupt_recovery
      if any (resolves next) (values s.reservations) then rest next else ok s)
    else ok s

unfoldable pub advance_published_frontier : TimestampState → Result TxnError TimestampState
unfolding advance_loop
advance_published_frontier s = advance_loop (s.last_issued - s.published_frontier) s

-- The arm of `AllocateStart` for a transaction that has no start time yet.
unfoldable pub start_arm : TimestampState → ℕ → TransactionTime → Result TxnError TimestampState
unfolding apply_new_timestamp
start_arm s id timestamp = do
  next ← ok_or (checked_add i64_max s.last_issued 1) corrupt_recovery
  moved ←
      if timestamp == next
      then (do
        reject (not (s.published_frontier == s.last_issued)) corrupt_recovery
        issued ← apply_new_timestamp s timestamp
        ok (record issued { published_frontier = timestamp }))
      else if timestamp == s.published_frontier
      then ok s
      else err corrupt_recovery
  ok (record moved { start_times = insert id timestamp moved.start_times })

-- The arm of `ReserveCommit` for a transaction that has no reservation yet.
unfoldable pub reserve_arm : TimestampState → ℕ → TransactionTime → Result TxnError TimestampState
unfolding apply_new_timestamp
reserve_arm s id timestamp = do
  issued ← apply_new_timestamp s timestamp
  let reservation : CommitTimeReservation = record { commit_time = timestamp; resolution = none }
  ok (record issued { reservations = insert id reservation issued.reservations })

-- The `match` on the present resolution in the arm of `ResolveCommit`.
unfoldable pub resolve_arm :
    TimestampState
    → ℕ
    → TransactionTime
    → CommitResolution
    → Option CommitResolution
    → Result TxnError TimestampState
resolve_arm s id timestamp resolution (some existing) =
    if same_resolution existing resolution then ok s else err corrupt_recovery
resolve_arm s id timestamp resolution none =
    let reservation : CommitTimeReservation = record {
      commit_time = timestamp;
      resolution = some resolution;
    } in
    advance_published_frontier (record s { reservations = replace id reservation s.reservations })

-- A failed `apply` leaves its state to be dropped: `open` returns the error and
-- `stage_operation` works on a copy.
unfoldable pub apply : TimestampState → TimestampCommand → Result TxnError TimestampState
apply s (start_allocated id timestamp) = elim (get id s.start_times) [
  | some existing ↦ if existing == timestamp then ok s else err corrupt_recovery
  | none ↦ start_arm s id timestamp
]
apply s (commit_reserved id timestamp) = elim (get id s.reservations) [
  | some existing ↦ if existing.commit_time == timestamp then ok s else err corrupt_recovery
  | none ↦ reserve_arm s id timestamp
]
apply s (commit_resolved id timestamp resolution) = do
  reservation ← ok_or (get id s.reservations) corrupt_recovery
  reject (not (reservation.commit_time == timestamp)) corrupt_recovery
  resolve_arm s id timestamp resolution reservation.resolution
