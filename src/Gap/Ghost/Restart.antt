-- ===== src/Gap/Ghost/Restart.antt =====
-- GhostReceiveMachine.cc, the constructor and `_run_from_snapshot`: where a ghost's machine starts.
use infinit_io.Base.{◌≡◌, refl, String, Bool, true, false, Option, none, some, if◌then◌else◌}
use infinit_io.Gap.Receive.Status.{Status, ghost_uploaded}
use infinit_io.Gap.Receive.Table.{
  another_device, cancel, end, fail, finish, reject, transfer, wait_for_decision, accept,
}
use infinit_io.Gap.Receive.Restore as Restore
use infinit_io.Gap.Receive.Restore.{same}
use infinit_io.Gap.Ghost.Machine.{State, receiving, wait_for_cloud_upload}

pub data Run : Type 0 where
  runs : State → Run
  nothing_runs unreachable : Run

-- The names given to `state_make`, which a snapshot keeps.
unfoldable pub state_name : State → String
unfolding Restore.state_name
state_name (receiving s) = Restore.state_name s
state_name wait_for_cloud_upload = "wait_for_cloud_upload_state"

-- The tests of `_run_from_snapshot`; where it throws there is none.
unfoldable pub named_state : String → Option State
unfolding same
named_state s =
    if same s "cancel"
    then some (receiving cancel)
    else if same s "ghost_uploaded"
    then some (receiving wait_for_decision)
    else if same s "accept"
    then some (receiving accept)
    else if same s "end"
    then some (receiving end)
    else if same s "fail"
    then some (receiving fail)
    else if same s "finish"
    then some (receiving finish)
    else if same s "reject"
    then some (receiving reject)
    else none

-- The `switch` on the transaction's status.
unfoldable pub deduce : Status → Bool → Run
deduce Status.created this_device = runs wait_for_cloud_upload
deduce Status.initialized this_device = runs wait_for_cloud_upload
deduce ghost_uploaded this_device = runs (receiving wait_for_decision)
deduce Status.accepted this_device =
    runs (receiving (if this_device then accept else another_device))
deduce Status.finished this_device = runs (receiving finish)
deduce Status.canceled this_device = runs (receiving cancel)
deduce Status.failed this_device = runs (receiving fail)
deduce Status.rejected this_device = nothing_runs
deduce Status.cloud_buffered this_device = unreachable
deduce Status.started this_device = unreachable
deduce Status.none this_device = unreachable
deduce Status.deleted this_device = unreachable

-- `snapshot` is the name in the file, where there is a file.
unfoldable pub run_from_snapshot : Option String → Status → Bool → Run
unfolding named_state deduce
run_from_snapshot none status this_device = deduce status this_device
run_from_snapshot (some s) status this_device = elim (named_state s) [
  | some state ↦ runs state
  | none ↦ deduce status this_device
]

-- The states whose names `_run_from_snapshot` knows.
unfoldable pub is_known : State → Bool
is_known (receiving another_device) = false
is_known (receiving transfer) = false
is_known (receiving wait_for_decision) = false
is_known (receiving s) = true
is_known wait_for_cloud_upload = false

-- A ghost's machine starts again in the state of its last snapshot but for the four states in which it waits
-- or downloads: there the name in the snapshot is not known, and the start is where the
-- transaction's status says, as without a snapshot.
pub run_from_snapshot-starts :
    (s : State) (status : Status) (this_device : Bool)
    → run_from_snapshot (some (state_name s)) status this_device
      ≡ (if is_known s then runs s else run_from_snapshot none status this_device)
unfolding run_from_snapshot state_name is_known
run_from_snapshot-starts (receiving another_device) status d = refl
run_from_snapshot-starts (receiving cancel) status d = refl
run_from_snapshot-starts (receiving end) status d = refl
run_from_snapshot-starts (receiving fail) status d = refl
run_from_snapshot-starts (receiving finish) status d = refl
run_from_snapshot-starts (receiving reject) status d = refl
run_from_snapshot-starts (receiving transfer) status d = refl
run_from_snapshot-starts (receiving wait_for_decision) status d = refl
run_from_snapshot-starts (receiving accept) status d = refl
run_from_snapshot-starts wait_for_cloud_upload status d = refl
