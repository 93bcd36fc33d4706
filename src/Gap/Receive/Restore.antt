-- ===== src/Gap/Receive/Restore.antt =====
-- PeerReceiveMachine.cc, `_run_from_snapshot`: the state from which a machine starts again.
use Prim.Native.String.{compare}
use Prim.Native.Nat.{Ordering}
use infinit_io.Base.{
  ◌≡◌, refl, ◌⊎◌, inl, inr, ◌∙◌, ap, String, Bool, true, false, Option, none, some, arith,
  if◌then◌else◌,
}
use infinit_io.Gap.Receive.Status.{Status, end_status}
use infinit_io.Gap.Receive.Table.{
  State, another_device, cancel, end, fail, finish, reject, transfer, wait_for_decision, accept,
}
use infinit_io.Gap.Receive.Machine.{World, Config, Step}
use infinit_io.Gap.Receive.Outcome.{at, close-shown, left_status, Closing, closing_status}

-- What `_run_from_snapshot` runs.
pub data Run : Type 0 where
  runs : State → Run
  nothing_runs : Run
  unreachable : Run

-- The names given to `state_make`, which a snapshot keeps.
unfoldable pub state_name : State → String
state_name another_device = "another device"
state_name cancel = "cancel"
state_name end = "end"
state_name fail = "fail"
state_name finish = "finish"
state_name reject = "reject"
state_name transfer = "transfer"
state_name wait_for_decision = "wait for decision"
state_name accept = "accept"

unfoldable pub same : String → String → Bool
same s t = elim (compare s t) [ Ordering.eq ↦ true | _ ↦ false ]

-- The tests of the snapshot's state.
unfoldable pub named_state : String → Option State
unfolding same
named_state s =
    if same s "accept"
    then some accept
    else if same s "cancel"
    then some cancel
    else if same s "end"
    then some end
    else if same s "fail"
    then some fail
    else if same s "finish"
    then some finish
    else if same s "reject"
    then some reject
    else if same s "transfer"
    then some transfer
    else if same s "wait for decision"
    then some wait_for_decision
    else if same s "another device"
    then some another_device
    else none

-- The `switch` on the transaction's status.
unfoldable pub deduce : Status → Bool → Run
deduce Status.accepted this_device = runs (if this_device then transfer else another_device)
deduce Status.finished this_device = runs finish
deduce Status.canceled this_device = runs cancel
deduce Status.failed this_device = runs fail
deduce Status.rejected this_device = nothing_runs
deduce Status.started this_device = unreachable
deduce Status.none this_device = unreachable
deduce Status.deleted this_device = unreachable
deduce Status.ghost_uploaded this_device = unreachable
deduce _ this_device = runs wait_for_decision

-- `snapshot` is the state that the file holds, where there is a file.
unfoldable pub run_from_snapshot : Option String → World → Run
unfolding named_state deduce
run_from_snapshot none w = deduce w.status w.this_device
run_from_snapshot (some s) w = elim (named_state s) [
  | some state ↦ runs state
  | none ↦ deduce w.status w.this_device
]

-- A machine starts again in the state of its last snapshot, whatever the transaction's status is.
pub run_from_snapshot-state_name :
    (s : State) (w : World) → run_from_snapshot (some (state_name s)) w ≡ runs s
unfolding run_from_snapshot state_name
run_from_snapshot-state_name another_device w = refl
run_from_snapshot-state_name cancel w = refl
run_from_snapshot-state_name end w = refl
run_from_snapshot-state_name fail w = refl
run_from_snapshot-state_name finish w = refl
run_from_snapshot-state_name reject w = refl
run_from_snapshot-state_name transfer w = refl
run_from_snapshot-state_name wait_for_decision w = refl
run_from_snapshot-state_name accept w = refl

-- There is no snapshot, or it names no state.
abbrev pub IsLost : Option String → Type 0
IsLost snapshot = (snapshot ≡ none) ⊎ ((s : String) × (snapshot ≡ some s) × (named_state s ≡ none))

abbrev pub IsClosed : Status → Type 0
IsClosed Status.finished = Unit {0}
IsClosed Status.canceled = Unit {0}
IsClosed Status.failed = Unit {0}
IsClosed _ = ⊥

run_from_snapshot-lost :
    (snapshot : Option String) (w : World)
    → IsLost snapshot
    → run_from_snapshot snapshot w ≡ deduce w.status w.this_device
unfolding run_from_snapshot
run_from_snapshot-lost snapshot w (inl e) = rw (e, run_from_snapshot) refl
run_from_snapshot-lost snapshot w (inr (s, e, n)) = rw (e, run_from_snapshot, n) refl

deduce-Closing :
    (status : Status) (d : Bool)
    → IsClosed status
    → (s : State) × Closing s × (deduce status d ≡ runs s) × (closing_status s ≡ status)
unfolding deduce
deduce-Closing Status.finished d v = (finish, tt, refl, refl)
deduce-Closing Status.canceled d v = (cancel, tt, refl, refl)
deduce-Closing Status.failed d v = (fail, tt, refl, refl)
deduce-Closing Status.accepted d v = absurd v
deduce-Closing Status.created d v = absurd v
deduce-Closing Status.initialized d v = absurd v
deduce-Closing Status.none d v = absurd v
deduce-Closing Status.rejected d v = absurd v
deduce-Closing Status.started d v = absurd v
deduce-Closing Status.deleted d v = absurd v
deduce-Closing Status.ghost_uploaded d v = absurd v
deduce-Closing Status.cloud_buffered d v = absurd v

-- A transaction that meta knows as finished, canceled or failed, and whose snapshot is lost, is
-- started again in a state from which one step ends it, and what is shown is that status, whether
-- or not meta answers.
pub run_from_snapshot-shown :
    (snapshot : Option String) (ok : Bool) (w : World)
    → IsLost snapshot
    → IsClosed w.status
    → (s : State) × (run_from_snapshot snapshot w ≡ runs s)
      × ((c' : Config) × Step (at s w) c'
          × (c'.state ≡ end)
          × (c'.world.shown ≡ end_status w.status))
run_from_snapshot-shown snapshot ok w l v =
    let (s, closing, e, f) = deduce-Closing w.status w.this_device v in
    let (c', step, ended, _, _, shown) = close-shown s ok w closing in
    (
      s,
      run_from_snapshot-lost snapshot w l ∙ e,
      (c', step, ended, shown ∙ ap end_status (left s f)),
    )
  where
    left : (s : State) → closing_status s ≡ w.status → left_status s ok w ≡ w.status
    left s f = ground arith
