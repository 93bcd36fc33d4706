-- ===== src/Gap/Ghost/Machine.antt =====
-- GhostReceiveMachine.cc: the state that a ghost's machine adds to a recipient's, what it overrides, and its
-- steps. A recipient's machine has more transitions where the sender is met, which a ghost's has not.
use mathlib.Core.List.{Memᴰ}
use infinit_io.Base.{◌≡◌, String, Bool, true, false, Option, none, some, List, ◌++◌, if◌then◌else◌}
use infinit_io.Gap.Receive.Status.{
  Status, ghost_uploaded, Shown, status_gap_from_meta, is_rollback, is_deletion,
}
use infinit_io.Gap.Receive.Table as Table
use infinit_io.Gap.Receive.Machine as Receive
use infinit_io.Gap.Receive.Machine.{World, Outcome, ended, from_another, holds, first_reason}

pub data State : Type 0 where
  receiving : Table.State → State
  wait_for_cloud_upload : State

-- The transitions of the classes that it derives from.
unfoldable pub transitions : List Table.Transition
unfolding Table.transaction_transitions Table.receive_transitions
transitions = Table.transaction_transitions ++ Table.receive_transitions

-- What a recipient's machine knows, and the barrier `_cloud_uploaded`.
pub record Ghost : Type 0 where
  pub world : World
  pub cloud_uploaded : Bool

-- What a state's action does at once.
unfoldable pub enter : State → World → World
unfolding Receive.enter
enter (receiving Table.transfer) w = record w { shown = Shown.transferring }
enter (receiving s) w = Receive.enter s from_another w
enter wait_for_cloud_upload w = record w { shown = Shown.waiting_data }

-- What a state's action has done when it ends. An error of the file system ends the transfer with the
-- transaction canceled, which is `ended false` for it.
unfoldable pub leave : Table.State → Outcome → World → World
unfolding Receive.leave
leave Table.transfer (ended false) w = record w { canceled = true }
leave s o w = Receive.leave s o w

-- `transaction_status_update`; `none` where the code is unreachable.
unfoldable pub status_update : Status → Ghost → Option Ghost
unfolding Receive.status_update
status_update ghost_uploaded g = some (record g { cloud_uploaded = true })
status_update s g = elim (Receive.status_update s g.world) [
  | none ↦ none
  | some w ↦ some (record g { world = w })
]

-- Transaction.cc, `on_transaction_update`, with this machine.
unfoldable pub on_transaction_update : Status → Bool → Ghost → Option Ghost
unfolding status_update status_gap_from_meta first_reason is_rollback is_deletion
on_transaction_update new this_device g =
    let w = g.world in
    let status = if is_rollback w.status new then Status.cloud_buffered else new in
    let reason =
      if is_deletion w.status new
      then first_reason w.failure_reason "fail on other side"
      else w.failure_reason in
    let w' : World = record w {
      status = status;
      this_device = this_device;
      failure_reason = reason;
    } in
    if w.over
    then some (record g { world = record w' { shown = status_gap_from_meta new } })
    else status_update status (record g { world = w' })

-- What reaches the machine from the user and from meta.
pub data Event : Type 0 where
  accepts : Option String → Event
  rejects : Event
  cancels : Event
  updates : Status → Bool → Event

-- An update that reaches unreachable code changes nothing.
unfoldable pub taken : Ghost → Option Ghost → Ghost
taken g none = g
taken g (some h) = h

unfoldable pub handle : Event → Ghost → Ghost
unfolding on_transaction_update Receive.accept_transaction taken
handle (accepts d) g = record g { world = Receive.accept_transaction d g.world }
handle rejects g = record g { world = record (g.world) { rejected = true } }
handle cancels g = record g { world = record (g.world) { canceled = true } }
handle (updates s b) g = taken g (on_transaction_update s b g)

pub record Config : Type 0 where
  pub state : State
  pub ghost : Ghost

unfoldable pub fire : Table.Transition → Outcome → Ghost → Config
unfolding leave Receive.act enter
fire t o g = record {
  state = receiving t.target;
  ghost = record g {
    world = enter (receiving t.target) (Receive.act t.action o (leave t.source o g.world));
  };
}

-- The transition that the machine adds.
unfoldable pub fire_uploaded : Ghost → Config
unfolding enter
fire_uploaded g = record {
  state = receiving Table.wait_for_decision;
  ghost = record g { world = enter (receiving Table.wait_for_decision) g.world };
}

pub data Step (c : Config) (c' : Config) : Type 0 where
  take :
      (t : Table.Transition) (o : Outcome)
      → Memᴰ t transitions
      → c.state ≡ receiving t.source
      → holds t.trigger o c.ghost.world ≡ true
      → c' ≡ fire t o c.ghost
      → Step c c'
  uploaded :
      c.state ≡ wait_for_cloud_upload
      → c.ghost.cloud_uploaded ≡ true
      → c' ≡ fire_uploaded c.ghost
      → Step c c'
  happens : (e : Event) → c' ≡ record c { ghost = handle e c.ghost } → Step c c'

pub data Steps (c : Config) : Config → Type 0 where
  start : Steps c c
  next : {d e : Config} → Steps c d → Step d e → Steps c e
