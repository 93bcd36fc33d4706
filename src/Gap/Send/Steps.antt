-- ===== src/Gap/Send/Steps.antt =====
-- PeerSendMachine.cc, LinkSendMachine.cc and Transaction.cc: the updates that reach a sender's machine, and
-- its courses.
use mathlib.Core.List.{Memᴰ}
use infinit_io.Base.{◌≡◌, String, Bool, true, false, ◌&&◌, Option, none, some, if◌then◌else◌}
use infinit_io.Gap.Receive.Status.{Status, Shown, status_gap_from_meta, is_rollback, is_deletion}
use infinit_io.Gap.Send.Table.{State, Transition, transitions, Kind, peer, link}
use infinit_io.Gap.Send.Machine.{World, Facts, Outcome, enter, leave, holds, act}

first_reason : Option String → String → Option String
first_reason none e = some e
first_reason (some r) e = some r

shown_elsewhere : Shown → World → World
shown_elsewhere s w = if w.this_device then w else record w { shown = s }

-- `PeerSendMachine::transaction_status_update`; `none` where the code aborts.
unfoldable pub peer_update : Status → World → Option World
unfolding shown_elsewhere first_reason
peer_update Status.initialized w = some (shown_elsewhere Shown.on_other_device w)
peer_update Status.created w = some (shown_elsewhere Shown.on_other_device w)
peer_update Status.cloud_buffered w = some (shown_elsewhere Shown.on_other_device w)
peer_update Status.accepted w = some (if w.this_device then record w { accepted = true } else w)
peer_update Status.canceled w = some (shown_elsewhere Shown.canceled (record w { canceled = true }))
peer_update Status.failed w = some (
    shown_elsewhere Shown.failed
      (record w { failed = true; failure_reason = first_reason w.failure_reason "peer failure" }))
peer_update Status.finished w = some (shown_elsewhere Shown.finished (record w { finished = true }))
peer_update Status.ghost_uploaded w =
    some (shown_elsewhere Shown.finished (record w { finished = true }))
peer_update Status.rejected w = some (shown_elsewhere Shown.rejected (record w { rejected = true }))
peer_update Status.none w = none
peer_update Status.started w = none
peer_update Status.deleted w = none

-- `LinkSendMachine::transaction_status_update`; `none` where the code is unreachable.
unfoldable pub link_update : Status → World → Option World
unfolding shown_elsewhere first_reason
link_update Status.initialized w = some (shown_elsewhere Shown.on_other_device w)
link_update Status.created w = some (shown_elsewhere Shown.on_other_device w)
link_update Status.finished w = some (shown_elsewhere Shown.finished (record w { finished = true }))
link_update Status.canceled w = some (shown_elsewhere Shown.canceled (record w { canceled = true }))
link_update Status.failed w = some (
    shown_elsewhere Shown.failed
      (record w { failed = true; failure_reason = first_reason w.failure_reason "peer failure" }))
link_update Status.deleted w = some (shown_elsewhere Shown.deleted w)
link_update _ w = none

unfoldable pub status_update : Kind → Status → World → Option World
unfolding peer_update link_update
status_update peer s w = peer_update s w
status_update link s w = link_update s w

is_peer : Kind → Bool
is_peer peer = true
is_peer link = false

-- Transaction.cc, `on_transaction_update`: the new data replace the old ones; the sender's device stays
-- the same.
unfoldable pub on_transaction_update : Kind → Status → Bool → World → Option World
unfolding status_update status_gap_from_meta first_reason is_rollback is_deletion is_peer
on_transaction_update kind new is_ghost w =
    let status = if is_peer kind && is_rollback w.status new then Status.cloud_buffered else new in
    let reason =
      if is_deletion w.status new
      then first_reason w.failure_reason "fail on other side"
      else w.failure_reason in
    let w' : World = record w { status = status; is_ghost = is_ghost; failure_reason = reason } in
    if w.over
    then some (record w' { shown = status_gap_from_meta new })
    else status_update kind status w'

-- What reaches the machine from the user, from meta and from the connection.
pub data Event : Type 0 where
  cancels : Event
  updates : Status → Bool → Event
  resets : Bool → Event

unfoldable pub handle : Kind → Event → World → World
unfolding on_transaction_update
handle kind cancels w = record w { canceled = true }
handle kind (updates s g) w = elim (on_transaction_update kind s g w) [ none ↦ w | some w' ↦ w' ]
handle kind (resets b) w = record w { reset = b }

pub record Config : Type 0 where
  pub state : State
  pub world : World

-- A transition, with what the next state's action does at once; what the transition's own action shows is
-- replaced where that action shows something else.
unfoldable pub fire : Kind → Transition → Facts → Outcome → Facts → World → Config
unfolding leave act enter
fire kind t before o after w = record {
  state = t.target;
  world = enter kind t.target after (act t.action o (leave kind t.source before o w));
}

-- `before` is what was known when the action of the state began, `after` what is known now.
pub data Step (kind : Kind) (c : Config) (c' : Config) : Type 0 where
  take :
      (t : Transition) (before : Facts) (o : Outcome) (after : Facts)
      → Memᴰ t (transitions kind)
      → c.state ≡ t.source
      → holds t.trigger o c.world ≡ true
      → c' ≡ fire kind t before o after c.world
      → Step kind c c'
  happens : (e : Event) → c' ≡ record c { world = handle kind e c.world } → Step kind c c'

pub data Steps (kind : Kind) (c : Config) : Config → Type 0 where
  start : Steps kind c c
  next : {d e : Config} → Steps kind c d → Step kind d e → Steps kind c e
