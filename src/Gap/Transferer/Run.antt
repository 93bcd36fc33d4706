-- ===== src/Gap/Transferer/Run.antt =====
-- TransferMachine.cc, PeerTransferMachine.cc and PeerMachine.cc: the barriers, the actions of the
-- states and one step of the machine. reactor::fsm runs the machine: a step may take any
-- transition from the current state whose trigger holds, which allows every order in which that
-- library may try them, and more.
use mathlib.Core.List.{Memᴰ}
use infinit_io.Base.{
  ℕ, ◌≡◌, String, Bool, true, false, not, Option, none, some, List, [], if◌then◌else◌,
}
use infinit_io.Gap.Transferer.Table.{
  State, cloud_synchronize, publish_interfaces, connection, wait_for_peer, transfer, paused,
  cloud_buffer, stopped, Barrier, peer_online, peer_offline, peer_reachable, peer_unreachable,
  owner_finished, owner_canceled, owner_paused, owner_not_paused, Exception, network, protocol,
  checksum, other, Trigger, returned, opened, completed, caught, caught_specific, Action, nothing,
  fail, Transition, transitions,
}

-- The statuses that the machine shows (gap_TransactionStatus).
pub data Status : Type 0 where
  connecting transferring buffered pausing elsewhere : Status

abbrev pub Endpoints : Type 0
Endpoints = List (String × ℕ)

pub record World : Type 0 where
  pub online : Bool
  pub offline : Bool
  pub reachable : Bool
  pub unreachable : Bool
  pub local_endpoints : Endpoints
  pub public_endpoints : Endpoints
  pub rpcs : Bool  -- the channel to the peer is open
  pub delay : Bool  -- the timer of `_delay_status_change` is armed
  -- The owner.
  pub finished : Bool
  pub canceled : Bool
  pub failed : Bool
  pub is_paused : Bool
  pub is_completed : Bool
  pub full : Bool  -- progress() == 1
  pub status : Status
  pub failure_reason : Option Exception

-- How the action of a state ended: it was interrupted, or returned, or threw.
pub data Outcome : Type 0 where
  interrupted : Outcome
  ended : Outcome
  threw : Exception → Outcome

unfoldable pub is_open : Barrier → World → Bool
is_open peer_online w = w.online
is_open peer_offline w = w.offline
is_open peer_reachable w = w.reachable
is_open peer_unreachable w = w.unreachable
is_open owner_finished w = w.finished
is_open owner_canceled w = w.canceled
is_open owner_paused w = w.is_paused
is_open owner_not_paused w = not w.is_paused

same_exception : Exception → Exception → Bool
same_exception network network = true
same_exception protocol protocol = true
same_exception checksum checksum = true
same_exception other other = true
same_exception _ _ = false

catches : Option Exception → Outcome → Bool
unfolding same_exception
catches none (threw e) = true
catches (some x) (threw e) = same_exception x e
catches _ _ = false

unfoldable pub holds : Trigger → Outcome → World → Bool
unfolding is_open catches
holds returned ended w = true
holds returned _ w = false
holds (opened b) o w = is_open b w
holds completed o w = w.is_completed
holds caught o w = catches none o
holds (caught_specific x) o w = catches (some x) o

-- The constructor: unreachable until told otherwise.
unfoldable pub init : World → World
init w = record w {
  unreachable = true;
  reachable = false;
  online = false;
  offline = false;
  rpcs = false;
  delay = false;
}

unfoldable pub connection_changed : Bool → World → World
connection_changed user_status w =
    if user_status
    then record w { offline = false; online = true }
    else record w { online = false; offline = true }

-- `run`, before the machine starts: what the owner's state says of the peer.
unfoldable pub run : Bool → Bool → Bool → World → World
unfolding connection_changed
run to_self other_device_online peer_is_online w =
    if to_self
    then connection_changed other_device_online w
    else connection_changed peer_is_online w

unfoldable pub peer_available : Endpoints → Endpoints → World → World
peer_available local public w = record w {
  local_endpoints = local;
  public_endpoints = public;
  unreachable = false;
  reachable = true;
}

unfoldable pub peer_unavailable : World → World
peer_unavailable w = record w {
  public_endpoints = [];
  local_endpoints = [];
  reachable = false;
  unreachable = true;
}

is_transferring : Status → Bool
is_transferring transferring = true
is_transferring _ = false

unfoldable pub delay_status_change : World → World
unfolding is_transferring
delay_status_change w =
    if is_transferring w.status then record w { delay = true } else record w { status = connecting }

-- The timer's action, five seconds later.
unfoldable pub delay_elapsed : World → World
unfolding is_transferring
delay_elapsed w =
    if w.delay
    then (if is_transferring w.status
        then record w { delay = false; status = connecting }
        else record w { delay = false })
    else w

status_unless_full : World → World
unfolding delay_status_change
status_unless_full w = if w.full then record w { status = buffered } else delay_status_change w

-- The `_…_wrapper` of each state, up to the call of what the subclass does.
unfoldable pub enter : State → World → World
unfolding status_unless_full delay_status_change
enter cloud_synchronize w = status_unless_full w
enter publish_interfaces w = status_unless_full w
enter connection w = delay_status_change w
enter wait_for_peer w = status_unless_full w
enter transfer w = record w { delay = false; status = transferring }
enter paused w = record w { status = pausing }
enter cloud_buffer w = w
enter stopped w = w

-- What the subclass's action leaves: `_connection` opens the channel when it returns, and
-- `_transfer` resets it however it ends.
unfoldable pub leave : State → Outcome → World → World
leave connection ended w = record w { rpcs = true }
leave transfer o w = record w { rpcs = false }
leave _ o w = w

unfoldable pub act : Action → Outcome → World → World
act nothing o w = w
act fail (threw e) w = record w { failure_reason = some e; failed = true }
act fail _ w = w

-- What happens beside the machine: the peer, the timer, the user and the transaction's progress.
pub data Event : Type 0 where
  available : Endpoints → Endpoints → Event
  unavailable : Event
  connection_change : Bool → Event
  elapsed : Event
  pause : Bool → Event
  progress : Bool → Bool → Event
  finish : Event
  cancel : Event
  failure : Event

unfoldable pub handle : Event → World → World
unfolding peer_available peer_unavailable connection_changed delay_elapsed
handle (available l p) w = peer_available l p w
handle unavailable w = peer_unavailable w
handle (connection_change b) w = connection_changed b w
handle elapsed w = delay_elapsed w
handle (pause b) w = record w { is_paused = b }
handle (progress done full) w = record w { is_completed = done; full = full }
handle finish w = record w { finished = true }
handle cancel w = record w { canceled = true }
handle failure w = record w { failed = true }

pub record Config : Type 0 where
  pub state : State
  pub world : World

-- A transition taken: the action of the state ends, the transition acts, the next state begins.
unfoldable pub fire : Transition → Outcome → World → Config
unfolding leave act enter
fire t o w = record {
  state = t.target;
  world = enter t.target (act t.action o (leave t.source o w));
}

pub data Step (c : Config) (c' : Config) : Type 0 where
  take :
      (t : Transition) (o : Outcome)
      → Memᴰ t transitions
      → c.state ≡ t.source
      → holds t.trigger o c.world ≡ true
      → c' ≡ fire t o c.world
      → Step c c'
  happens : (e : Event) → c' ≡ record c { world = handle e c.world } → Step c c'

-- The machine starts with the synchronization, once `run` has set the barriers.
pub data Reach (w : World) (a b p : Bool) : Config → Type 0 where
  start :
      Reach w a b p
        (record { state = cloud_synchronize; world = enter cloud_synchronize (run a b p (init w)) })
  next : {c c' : Config} → Reach w a b p c → Step c c' → Reach w a b p c'
