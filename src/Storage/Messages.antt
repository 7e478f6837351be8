-- ===== src/Storage/Messages.antt =====
-- crates/storage/dtg-storage/src/error.rs: the code of an error and its text.
use Prim.Native.String.{String, ◌++◌}
use dtgproxy.Base.{◌≡◌, refl}
use dtgproxy.Base.Strings.{decimal}
use dtgproxy.Storage.{
  StorageError, invalid_binding, invalid_capability, invalid_mutation, invalid_batch,
  injected_apply_failure, stale_binding, namespace_owner_mismatch, non_monotonic_index,
  replay_mismatch, read_fence_unavailable, capability_drift, unsupported, corrupt_snapshot,
  snapshot_identity_mismatch, snapshot_not_exhausted, invalid_consensus, invalid_artifact,
  not_found, tck_violation, internal,
}

unfoldable pub code : StorageError → String
code (invalid_binding _) = "DTG-STORAGE-BINDING"
code (invalid_capability _) = "DTG-STORAGE-CAPABILITY"
code (invalid_mutation _) = "DTG-STORAGE-MUTATION"
code (invalid_batch _) = "DTG-STORAGE-BATCH"
code (injected_apply_failure _) = "DTG-STORAGE-INJECTED-APPLY"
code (stale_binding _ _) = "DTG-STORAGE-STALE-BINDING"
code (namespace_owner_mismatch _ _) = "DTG-STORAGE-NAMESPACE-OWNER"
code (non_monotonic_index _ _) = "DTG-STORAGE-RAFT-INDEX"
code (replay_mismatch _) = "DTG-STORAGE-REPLAY"
code (read_fence_unavailable _ _) = "DTG-STORAGE-READ-FENCE"
code capability_drift = "DTG-STORAGE-CAPABILITY-DRIFT"
code unsupported = "DTG-STORAGE-UNSUPPORTED"
code (corrupt_snapshot _) = "DTG-STORAGE-SNAPSHOT-CORRUPT"
code snapshot_identity_mismatch = "DTG-STORAGE-SNAPSHOT-IDENTITY"
code snapshot_not_exhausted = "DTG-STORAGE-SNAPSHOT-NOT-EXHAUSTED"
code (invalid_consensus _) = "DTG-STORAGE-CONSENSUS"
code (invalid_artifact _) = "DTG-STORAGE-ARTIFACT"
code not_found = "DTG-STORAGE-NOT-FOUND"
code (tck_violation _) = "DTG-STORAGE-TCK"
code (internal _) = "DTG-STORAGE-INTERNAL"

abbrev coded : StorageError → String → String
coded e message = code e ++ (": " ++ message)

-- `Display`
unfoldable pub display : StorageError → String
display (invalid_binding m) = coded (invalid_binding m) m
display (invalid_capability m) = coded (invalid_capability m) m
display (invalid_mutation m) = coded (invalid_mutation m) m
display (invalid_batch m) = coded (invalid_batch m) m
display (corrupt_snapshot m) = coded (corrupt_snapshot m) m
display (invalid_consensus m) = coded (invalid_consensus m) m
display (invalid_artifact m) = coded (invalid_artifact m) m
display (tck_violation m) = coded (tck_violation m) m
display (internal m) = coded (internal m) m
display (stale_binding _ _) = "stale replica binding"
display (namespace_owner_mismatch _ _) = "namespace owner does not match requested binding"
display (non_monotonic_index applied proposed) =
    "Raft index must advance monotonically: applied "
    ++ (decimal applied ++ (", proposed " ++ decimal proposed))
display (replay_mismatch raft_index) =
    "replay identity mismatch at Raft index " ++ decimal raft_index
display (read_fence_unavailable requested applied) =
    "read fence " ++ (decimal requested ++ (" is unavailable at applied index " ++ decimal applied))
display capability_drift = "capability digest changed"
display (injected_apply_failure staged_mutations) =
    "injected apply failure after staging " ++ (decimal staged_mutations ++ " mutations")
display unsupported = "operation is unsupported"
display snapshot_identity_mismatch = "snapshot logical identity does not match target"
display snapshot_not_exhausted = "snapshot reader still contains unread chunks"
display not_found = "storage record was not found"

shown :
    display (non_monotonic_index 10 307)
    ≡ "Raft index must advance monotonically: applied 10, proposed 307"
unfolding display
shown = refl
