-- ===== src/Gap/Send/Restore.antt =====
-- PeerSendMachine.cc and LinkSendMachine.cc, `_run_from_snapshot`: the state from which a sender's machine
-- starts again.
use infinit_io.Base.{◌≡◌, refl, String, Option, none, some, if◌then◌else◌}
use infinit_io.Gap.Receive.Status.{Status}
use infinit_io.Gap.Receive.Restore.{same}
use infinit_io.Gap.Send.Table.{
  State, another_device, cancel, end, fail, finish, reject, transfer, create_transaction,
  initialize_transaction, wait_for_accept, Kind, peer, link,
}
use infinit_io.Gap.Send.Machine.{World}

-- What `_run_from_snapshot` runs, or the barrier that it opens, with no machine running.
pub data Run : Type 0 where
  runs : State → Run
  opens_rejected : Run
  nothing_runs : Run
  unreachable : Run

-- The names given to `state_make`, which a snapshot keeps.
unfoldable pub state_name : State → String
state_name another_device = "another device"
state_name cancel = "cancel"
state_name end = "end"
state_name fail = "fail"
state_name finish = "finish"
state_name reject = "reject"
state_name transfer = "transfer"
state_name create_transaction = "create transaction"
state_name initialize_transaction = "initialize transaction"
state_name wait_for_accept = "wait for accept"

-- The tests of the snapshot's state in `PeerSendMachine`.
unfoldable pub peer_state : String → Option State
unfolding same
peer_state s =
    if same s "cancel"
    then some cancel
    else if same s "create transaction"
    then some create_transaction
    else if same s "initialize transaction"
    then some initialize_transaction
    else if same s "end"
    then some end
    else if same s "fail"
    then some fail
    else if same s "finish"
    then some finish
    else if same s "reject"
    then some reject
    else if same s "transfer"
    then some transfer
    else if same s "wait for accept"
    then some wait_for_accept
    else if same s "another device"
    then some another_device
    else none

-- The same in `LinkSendMachine`.
unfoldable pub link_state : String → Option State
unfolding same
link_state s =
    if same s "cancel"
    then some cancel
    else if same s "create transaction"
    then some create_transaction
    else if same s "initialize transaction"
    then some initialize_transaction
    else if same s "end"
    then some end
    else if same s "fail"
    then some fail
    else if same s "finish"
    then some finish
    else if same s "reject"
    then some reject
    else if same s "upload"
    then some transfer
    else if same s "another device"
    then some another_device
    else none

begun : State → World → Run
begun s w =
    if w.this_device
    then (if w.has_id then runs s else runs create_transaction)
    else runs another_device

-- The `switch` on the transaction's status in `PeerSendMachine`.
unfoldable pub peer_deduce : Status → World → Run
unfolding begun
peer_deduce Status.initialized w = begun wait_for_accept w
peer_deduce Status.created w = begun wait_for_accept w
peer_deduce Status.cloud_buffered w = begun wait_for_accept w
peer_deduce Status.accepted w = if w.this_device then runs transfer else nothing_runs
peer_deduce Status.finished w = runs finish
peer_deduce Status.ghost_uploaded w = runs finish
peer_deduce Status.canceled w = runs cancel
peer_deduce Status.failed w = runs fail
peer_deduce Status.rejected w = opens_rejected
peer_deduce Status.started w = unreachable
peer_deduce Status.none w = unreachable
peer_deduce Status.deleted w = unreachable

-- The same in `LinkSendMachine`.
unfoldable pub link_deduce : Status → World → Run
unfolding begun
link_deduce Status.initialized w = begun transfer w
link_deduce Status.created w = begun transfer w
link_deduce Status.finished w = runs finish
link_deduce Status.canceled w = runs cancel
link_deduce Status.failed w = runs fail
link_deduce _ w = unreachable

chosen : Option State → Run → Run
chosen none r = r
chosen (some s) r = runs s

-- `snapshot` is the state that the file holds, where there is a file.
unfoldable pub run_from_snapshot : Kind → Option String → World → Run
unfolding peer_state link_state peer_deduce link_deduce chosen
run_from_snapshot peer none w = peer_deduce w.status w
run_from_snapshot peer (some s) w = chosen (peer_state s) (peer_deduce w.status w)
run_from_snapshot link none w = link_deduce w.status w
run_from_snapshot link (some s) w = chosen (link_state s) (link_deduce w.status w)

-- A machine for a user starts again in the state of its last snapshot, for every state; one for a
-- link does so but for `transfer`, for which the name in the snapshot is not known and the start is
-- deduced from the status, and but for `wait_for_accept`, which it does not have.
pub run_from_snapshot-restores :
    (s : State) (w : World)
    → (run_from_snapshot peer (some (state_name s)) w ≡ runs s)
      × (run_from_snapshot link (some (state_name s)) w ≡ elim s [
        | transfer ↦ link_deduce w.status w
        | wait_for_accept ↦ link_deduce w.status w
        | other ↦ runs other
      ])
unfolding run_from_snapshot state_name
run_from_snapshot-restores another_device w = (refl, refl)
run_from_snapshot-restores cancel w = (refl, refl)
run_from_snapshot-restores end w = (refl, refl)
run_from_snapshot-restores fail w = (refl, refl)
run_from_snapshot-restores finish w = (refl, refl)
run_from_snapshot-restores reject w = (refl, refl)
run_from_snapshot-restores transfer w = (refl, refl)
run_from_snapshot-restores create_transaction w = (refl, refl)
run_from_snapshot-restores initialize_transaction w = (refl, refl)
run_from_snapshot-restores wait_for_accept w = (refl, refl)
