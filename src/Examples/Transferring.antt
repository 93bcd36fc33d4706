-- ===== src/Examples/Transferring.antt =====
-- fist/src/surface/gap/TransferMachine.cc: the theorems along a course of the machine.
use infinit_io.Base.{ℕ, ◌≡◌, refl, ap, true, false, none, some, [], get_elem?, get_elem?-mem}
use infinit_io.Gap.Transferer.Table.{Transition, transitions, transfer, stopped}
use infinit_io.Gap.Transferer.Run.{
  World, connecting, ended, holds, init, run, enter, leave, act, Event, available, handle, Config,
  fire, Step, take, happens, Reach, start, next,
}
use infinit_io.Gap.Transferer.Connection.{is_transfer, Reach-connected}
use infinit_io.Gap.Transferer.Ending.{IsOver, Step-IsOver}

abbrev world : World
world = record {
  online = false;
  offline = false;
  reachable = false;
  unreachable = false;
  local_endpoints = [];
  public_endpoints = [];
  rpcs = false;
  delay = false;
  finished = false;
  canceled = false;
  failed = false;
  is_paused = false;
  is_completed = false;
  full = false;
  status = connecting;
  failure_reason = none;
}

abbrev Course : Config → Type 0
Course = Reach world false false true

-- The transition of an index, taken when the action has ended.
go :
    (i : ℕ) (t : Transition) (c : Config)
    → Course c
    → get_elem? transitions i ≡ some t
    → c.state ≡ t.source
    → holds t.trigger ended c.world ≡ true
    → Course (fire t ended c.world)
go i t c r e s h = next r (take t ended (get_elem?-mem transitions i t e) s h refl)

tell : (e : Event) (c : Config) → Course c → Course (record c { world = handle e c.world })
tell e c r = next r (happens e refl)

-- Synchronized, published, connected to the peer who became reachable, and transferring.
transferring : (c : Config) × Course c × (c.state ≡ transfer)
unfolding transitions holds handle fire enter run init
transferring = (
  _,
  go 14 _ _ (go 3 _ _ (tell (available [] []) _ (go 2 _ _ start refl refl refl)) refl refl refl)
      refl refl refl,
  refl,
)

Reach-connected_example : transferring.0.world.rpcs ≡ true
Reach-connected_example = Reach-connected transferring.1 (ap is_transfer transferring.2)

-- The user cancels a transfer.
abbrev canceled : Config
canceled = record { state = transfer; world = record world { canceled = true; rpcs = true } }

stopping :
    Step canceled (record { state = stopped; world = record canceled.world { rpcs = false } })
unfolding transitions holds fire enter leave act
stopping = take _ ended (get_elem?-mem transitions 24 _ refl) refl refl refl

Step-IsOver_example : IsOver (record canceled.world { rpcs = false })
Step-IsOver_example = Step-IsOver stopping refl refl

abbrev pausing_transfer : Config
pausing_transfer = record {
  state = transfer;
  world = record world { is_paused = true; rpcs = true };
}
