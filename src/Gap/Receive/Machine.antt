-- ===== src/Gap/Receive/Machine.antt =====
-- TransactionMachine.cc, ReceiveMachine.cc and PeerReceiveMachine.cc: what the states of the
-- machine do, what reaches it from outside, and its steps. reactor::fsm runs the machine: a step
-- may take any transition from the current state whose trigger holds. Metrics, crash reports
-- and the snapshot on disk are left out.
use mathlib.Core.List.{Memᴰ}
use infinit_io.Base.{ℕ, ◌==◌, ◌≡◌, String, Bool, true, false, Option, none, some, if◌then◌else◌}
use infinit_io.Gap.Receive.Status.{
  Status, Shown, end_status, status_gap_from_meta, is_rollback, is_deletion,
}
use infinit_io.Gap.Receive.Table.{
  State, another_device, cancel, end, fail, finish, reject, wait_for_decision, Barrier,
  accepted_elsewhere, reset_transfer, Trigger, returned, opened, caught, Action, record_reason,
  record_first_reason, record_and_fail, Transition, transitions,
}

pub record World : Type 0 where
  pub finished : Bool
  pub rejected : Bool
  pub canceled : Bool
  pub failed : Bool
  pub accepted : Bool
  pub elsewhere : Bool
  pub reset : Bool
  pub has_id : Bool
  pub this_device : Bool  -- concerns_this_device()
  pub status : Status  -- data()->status
  pub shown : Shown  -- gap_status()
  pub over : Bool
  pub failure_reason : Option String
  pub output_dir : String  -- _relative_output_dir

unfoldable pub is_open : Barrier → World → Bool
is_open Barrier.finished w = w.finished
is_open Barrier.rejected w = w.rejected
is_open Barrier.canceled w = w.canceled
is_open Barrier.failed w = w.failed
is_open Barrier.accepted w = w.accepted
is_open accepted_elsewhere w = w.elsewhere
is_open reset_transfer w = w.reset

-- `_finalize`: meta may refuse the status or be out of reach, and then nothing is recorded.
unfoldable pub finalize : Status → Bool → World → World
finalize s meta_takes_it w =
    if w.has_id then (if meta_takes_it then record w { status = s } else w) else w

-- `_end`.
unfoldable pub end_transaction : World → World
unfolding end_status
end_transaction w = record w { shown = end_status w.status; over = true }

-- Where the transaction goes, for a transaction of the user to one of their own devices.
pub data Destination : Type 0 where
  undecided here elsewhere : Destination

-- The sender, the user of this device, the device that the files are meant for, where there is one, and this
-- device.
pub record Parties : Type 0 where
  pub sender_id : ℕ
  pub me : ℕ
  pub recipient_device_id : Option ℕ
  pub device_uuid : ℕ

-- The sender is another user.
abbrev pub from_another : Parties
from_another = record { sender_id = 0; me = 1; recipient_device_id = none; device_uuid = 0 }

-- The tests of `PeerReceiveMachine::_wait_for_decision`.
unfoldable pub destination : Parties → Destination
destination p =
    if p.sender_id == p.me
    then (elim p.recipient_device_id [
      | none ↦ undecided
      | some id ↦ if id == p.device_uuid then here else elsewhere
    ])
    else undecided

-- `PeerReceiveMachine::_wait_for_decision`.
unfoldable pub wait_decision : Destination → World → World
wait_decision undecided w = record w { shown = Shown.waiting_accept }
wait_decision here w = record w { shown = Shown.waiting_accept; output_dir = ""; accepted = true }
wait_decision Destination.elsewhere w = record w { shown = Shown.waiting_accept; elsewhere = true }

-- What a state's action does at once.
unfoldable pub enter : State → Parties → World → World
unfolding wait_decision destination end_transaction
enter end d w = end_transaction w
enter another_device d w = record w { shown = Shown.on_other_device }
enter wait_for_decision d w = wait_decision (destination d) w
enter _ d w = w

-- How the action of a state ended: cut short before it had an effect, or with meta's answer, or
-- by an exception.
pub data Outcome : Type 0 where
  cut_short : Outcome
  ended : Bool → Outcome
  threw : String → Outcome

-- What a state's action has done when it ends.
unfoldable pub leave : State → Outcome → World → World
unfolding finalize
leave finish (ended ok) w = finalize Status.finished ok w
leave cancel (ended ok) w = finalize Status.canceled ok w
leave reject (ended ok) w = finalize Status.rejected ok w
leave fail (ended ok) w = finalize Status.failed ok w
leave _ _ w = w

unfoldable pub holds : Trigger → Outcome → World → Bool
unfolding is_open
holds (opened b) o w = is_open b w
holds returned (ended ok) w = true
holds caught (threw e) w = true
holds _ _ w = false

unfoldable pub first_reason : Option String → String → Option String
first_reason none e = some e
first_reason (some r) e = some r

unfoldable pub act : Action → Outcome → World → World
unfolding first_reason
act record_reason (threw e) w = record w { failure_reason = some e }
act record_first_reason (threw e) w = record w { failure_reason = first_reason w.failure_reason e }
act record_and_fail (threw e) w = record w { failure_reason = some e; failed = true }
act _ _ w = w

shown_elsewhere : Shown → World → World
shown_elsewhere s w = if w.this_device then w else record w { shown = s }

-- `transaction_status_update`; `none` where the code is unreachable.
unfoldable pub status_update : Status → World → Option World
unfolding shown_elsewhere first_reason
status_update Status.canceled w =
    some (shown_elsewhere Shown.canceled (record w { canceled = true }))
status_update Status.failed w = some (
    shown_elsewhere Shown.failed
      (record w { failed = true; failure_reason = first_reason w.failure_reason "peer failure" }))
status_update Status.finished w =
    some (shown_elsewhere Shown.finished (record w { finished = true }))
status_update Status.accepted w = some (if w.this_device then w else record w { elsewhere = true })
status_update Status.rejected w =
    some (shown_elsewhere Shown.rejected (record w { rejected = true }))
status_update Status.initialized w = some w
status_update Status.cloud_buffered w = some w
status_update Status.ghost_uploaded w = none
status_update Status.created w = none
status_update Status.started w = none
status_update Status.none w = none
status_update Status.deleted w = none

-- Transaction.cc, `on_transaction_update`: the status and the device of the new data are kept, and
-- the machine is told, or what is shown is changed once the transaction is over.
unfoldable pub on_transaction_update : Status → Bool → World → Option World
unfolding status_update status_gap_from_meta first_reason is_rollback is_deletion
on_transaction_update new this_device w =
    let status = if is_rollback w.status new then Status.cloud_buffered else new in
    let reason =
      if is_deletion w.status new
      then first_reason w.failure_reason "fail on other side"
      else w.failure_reason in
    let w' : World = record w {
      status = status;
      this_device = this_device;
      failure_reason = reason;
    } in
    if w.over
    then some (record w' { shown = status_gap_from_meta new })
    else status_update status w'

-- `accept`.
unfoldable pub accept_transaction : Option String → World → World
accept_transaction dir w = record w {
  output_dir = elim dir [ none ↦ "" | some d ↦ d ];
  accepted = true;
}

-- What reaches the machine from the user and from meta.
pub data Event : Type 0 where
  accepts : Option String → Event
  rejects : Event
  cancels : Event
  updates : Status → Bool → Event
  resets : Bool → Event

unfoldable pub handle : Event → World → World
unfolding on_transaction_update accept_transaction
handle (accepts d) w = accept_transaction d w
handle rejects w = record w { rejected = true }
handle cancels w = record w { canceled = true }
handle (updates s b) w = elim (on_transaction_update s b w) [ none ↦ w | some w' ↦ w' ]
handle (resets b) w = record w { reset = b }

pub record Config : Type 0 where
  pub state : State
  pub world : World

unfoldable pub fire : Transition → Outcome → Parties → World → Config
unfolding leave act enter
fire t o d w = record {
  state = t.target;
  world = enter t.target d (act t.action o (leave t.source o w));
}

pub data Step (c : Config) (c' : Config) : Type 0 where
  take :
      (t : Transition) (o : Outcome) (d : Parties)
      → Memᴰ t transitions
      → c.state ≡ t.source
      → holds t.trigger o c.world ≡ true
      → c' ≡ fire t o d c.world
      → Step c c'
  happens : (e : Event) → c' ≡ record c { world = handle e c.world } → Step c c'

pub data Steps (c : Config) : Config → Type 0 where
  start : Steps c c
  next : {d e : Config} → Steps c d → Step d e → Steps c e
