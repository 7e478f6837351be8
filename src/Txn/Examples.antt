-- ===== src/Txn/Examples.antt =====
-- Runs of the transaction crate at concrete inputs.
use dtgproxy.Base.{ℕ, zero, suc, ◌≡◌, refl, false, none, some, [], ◌∷◌, ◌++◌, arith, ok, err}
use dtgproxy.Base.Map.{get, insert, replace, nat_key}
use dtgproxy.Txn.{shard}
use dtgproxy.Txn.Timestamp.{
  TimestampState, CommitTimeReservation, committed, commit_reserved, commit_resolved,
  allocate_start, reserve_commit, initial, apply, reserve_arm, resolve_arm, apply_new_timestamp,
  advance_published_frontier, start_allocated, is_pending,
}
use dtgproxy.Txn.Timestamp.Frontier.{
  IsCovered, IsConsistent, Advances, advance_published_frontier-Advances,
}
use dtgproxy.Txn.Timestamp.Invariant.{apply-IsConsistent}
use dtgproxy.Txn.Timestamp.History.{
  Reach, here, next, initial-IsConsistent, Reach-IsConsistent, KeptAt, snapshot_stable,
  reservation_kept, commit_times_unique,
}
use dtgproxy.Base.Bytes.{Bytes}
use dtgproxy.Txn.Codec.{encode_command, decode_command}
use dtgproxy.Txn.Codec.RoundTrip.{decode-encode_command}
use dtgproxy.Txn.Authority.{Authority, stage_operation, apply_batch, open_log, replay}
use dtgproxy.Txn.Authority.Stage.{start_for, allocate_start_total}
use dtgproxy.Txn.Authority.Replay.{IsDurable, apply_batch-IsDurable}
use dtgproxy.Txn.Authority.Batching.{then_batch, apply_batch-append, failed_append_returns_time}

abbrev pending_at : ℕ → CommitTimeReservation
pending_at t = record { commit_time = t; resolution = none }

abbrev settled_at : ℕ → CommitTimeReservation
settled_at t = record { commit_time = t; resolution = some committed }

abbrev one_reserved : TimestampState
one_reserved = record {
  last_issued = 1;
  published_frontier = 0;
  start_times = [];
  reservations = (7, pending_at 1) ∷ [];
}

abbrev one_settled : TimestampState
one_settled = record {
  last_issued = 1;
  published_frontier = 1;
  start_times = [];
  reservations = (7, settled_at 1) ∷ [];
}

abbrev two_reserved : TimestampState
two_reserved = record {
  last_issued = 2;
  published_frontier = 1;
  start_times = [];
  reservations = (7, settled_at 1) ∷ (9, pending_at 2) ∷ [];
}

to_reserved : Reach initial one_reserved
unfolding apply reserve_arm apply_new_timestamp get insert
to_reserved = next here (commit_reserved 7 1) refl

settle : apply one_reserved (commit_resolved 7 1 committed) ≡ ok one_settled
unfolding apply resolve_arm advance_published_frontier get replace
settle = refl

to_settled : Reach initial one_settled
to_settled = next to_reserved (commit_resolved 7 1 committed) settle

settled_on : Reach one_settled two_reserved
unfolding apply reserve_arm apply_new_timestamp get insert
settled_on = next here (commit_reserved 9 2) refl

reserved-IsConsistent : IsConsistent one_reserved
reserved-IsConsistent = Reach-IsConsistent initial-IsConsistent to_reserved

settled-IsConsistent : IsConsistent one_settled
settled-IsConsistent = Reach-IsConsistent initial-IsConsistent to_settled

abbrev to_advance : TimestampState
to_advance = record {
  last_issued = 1;
  published_frontier = 0;
  start_times = [];
  reservations = (7, settled_at 1) ∷ [];
}

to_advance-IsCovered : IsCovered to_advance
to_advance-IsCovered = record {
  ordered = omega arith;
  in_range = omega arith;
  started = tt;
  timed = ((omega arith, omega arith, λ _. refl), tt);
  distinct = (tt, tt);
  covered = λ t above below. ground arith;
}

advance_example : Advances to_advance (advance_published_frontier to_advance)
advance_example = advance_published_frontier-Advances to_advance to_advance-IsCovered

apply_example : IsConsistent one_settled
apply_example =
    apply-IsConsistent one_reserved one_settled (commit_resolved 7 1 committed)
      reserved-IsConsistent settle

snapshot_stable_example :
    (get 7 one_settled.reservations ≡ some (settled_at 1)) × (is_pending (settled_at 1) ≡ false)
unfolding get
snapshot_stable_example =
    snapshot_stable {s = one_settled} {s' = two_reserved} 7 (settled_at 1) settled-IsConsistent
      settled_on refl (omega arith)

reservation_kept_example : KeptAt two_reserved 7 (settled_at 1)
unfolding get
reservation_kept_example =
    reservation_kept {s = one_settled} {s' = two_reserved} 7 (settled_at 1) settled-IsConsistent
      settled_on refl

commit_times_unique_example : ◌≡◌ {A = ℕ} 7 7
unfolding get
commit_times_unique_example =
    commit_times_unique {s = one_settled} 7 7 (settled_at 1) (settled_at 1) to_settled refl refl
      refl

allocate_start_example :
    stage_operation one_settled (allocate_start 5)
    ≡ ok (
      (start_for one_settled 5).0,
      some (start_allocated 5 (start_for one_settled 5).0),
      (start_for one_settled 5).1,
    )
unfolding get
allocate_start_example = allocate_start_total one_settled 5 settled-IsConsistent (omega arith)

-- A digest of the right length, in the place of blake3.
abbrev zeros : ℕ → Bytes
zeros zero = []
zeros (suc n) = 0 ∷ zeros n

abbrev digest : Bytes → Bytes
digest bytes = zeros 32

decode-encode_example :
    decode_command digest (encode_command digest (commit_resolved 7 300 committed))
    ≡ ok (commit_resolved 7 300 committed)
decode-encode_example =
    decode-encode_command digest (λ bytes. refl) (commit_resolved 7 300 committed)
      (record { id_set = λ e. ground arith; id_bound = omega arith; time_bound = omega arith })

abbrev empty_authority : Authority
empty_authority = record { log = []; state = initial }

empty-IsDurable : IsDurable digest (λ bytes. refl) empty_authority
unfolding open_log replay
empty-IsDurable = refl

IsDurable-example :
    IsDurable digest
      (λ bytes. refl)
      (apply_batch digest empty_authority none (reserve_commit 7 ∷ allocate_start 5 ∷ [])).1
IsDurable-example =
    apply_batch-IsDurable digest (λ bytes. refl) empty_authority none
      (reserve_commit 7 ∷ allocate_start 5 ∷ [])
      ((λ e. ground arith, omega arith), ((λ e. ground arith, omega arith), tt)) empty-IsDurable

batching_example :
    apply_batch digest empty_authority none ((reserve_commit 7 ∷ []) ++ (allocate_start 5 ∷ []))
    ≡ then_batch digest
        (apply_batch digest empty_authority none (reserve_commit 7 ∷ []))
        (allocate_start 5 ∷ [])
batching_example =
    apply_batch-append digest empty_authority (reserve_commit 7 ∷ []) (allocate_start 5 ∷ [])

failed_append_example :
    apply_batch digest empty_authority
      (some (shard "disk"))
      (reserve_commit 7 ∷ reserve_commit 7 ∷ [])
    ≡ (err (shard "disk") ∷ ok 1 ∷ [], empty_authority)
unfolding get
failed_append_example =
    failed_append_returns_time digest empty_authority 7 (shard "disk") (omega arith) refl
