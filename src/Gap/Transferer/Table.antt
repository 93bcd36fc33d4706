-- ===== src/Gap/Transferer/Table.antt =====
-- TransferMachine.cc, `Transferer::Transferer`: the states and the transitions between them.
use infinit_io.Base.{Bool, true, false, List, [], ◌∷◌, ◌++◌}

pub data State : Type 0 where
  cloud_synchronize publish_interfaces connection wait_for_peer transfer paused cloud_buffer
        stopped :
      State

-- The barriers that transitions wait for: the transferer's own, and those of its owner.
pub data Barrier : Type 0 where
  peer_online peer_offline peer_reachable peer_unreachable : Barrier
  owner_finished owner_canceled owner_paused owner_not_paused : Barrier

-- The exceptions that are told apart. Each of the first three is also caught by `caught`.
pub data Exception : Type 0 where
  network protocol checksum other : Exception

-- What lets a transition be taken: the end of the state's action, an open barrier, the test of
-- `completed()`, or an exception of the action.
pub data Trigger : Type 0 where
  returned : Trigger
  opened : Barrier → Trigger
  completed : Trigger
  caught : Trigger
  caught_specific : Exception → Trigger

-- What a transition does beyond logging: record the reason and open the owner's `failed`.
pub data Action : Type 0 where
  nothing : Action
  fail : Action

pub record Transition : Type 0 where
  pub source : State
  pub target : State
  pub trigger : Trigger
  pub preempts : Bool
  pub action : Action

abbrev add : State → State → Trigger → Bool → Transition
add s t g p = record { source = s; target = t; trigger = g; preempts = p; action = nothing }

abbrev add_failing : State → State → Trigger → Transition
add_failing s t g = record { source = s; target = t; trigger = g; preempts = false; action = fail }

-- "Transitions": first the cloud, then the interfaces, then the peer.
unfoldable pub start_transitions : List Transition
start_transitions =
    add cloud_synchronize stopped (opened owner_finished) false
    ∷ add cloud_synchronize stopped completed false
    ∷ add cloud_synchronize publish_interfaces returned false
    ∷ add publish_interfaces connection (opened peer_reachable) false
    ∷ add publish_interfaces wait_for_peer (opened peer_unreachable) false
    ∷ add connection wait_for_peer (opened peer_unreachable) true
    ∷ add wait_for_peer connection (opened peer_reachable) true
    ∷ []

-- "Cloud buffer".
unfoldable pub buffer_transitions : List Transition
buffer_transitions =
    add wait_for_peer cloud_buffer (opened peer_offline) true
    ∷ add cloud_buffer wait_for_peer (opened peer_online) true
    ∷ []

-- "Finished".
unfoldable pub finish_transitions : List Transition
finish_transitions =
    add transfer stopped (opened owner_finished) true
    ∷ add wait_for_peer stopped (opened owner_finished) true
    ∷ add transfer stopped completed false
    ∷ add cloud_buffer stopped completed false
    ∷ add wait_for_peer stopped completed false
    ∷ []

-- "Start and stop transfering".
unfoldable pub transfer_transitions : List Transition
transfer_transitions =
    add connection transfer returned false
    ∷ add transfer connection (opened peer_offline) true
    ∷ add transfer connection (caught_specific network) false
    ∷ add transfer connection (caught_specific protocol) false
    ∷ add transfer connection (caught_specific checksum) false
    ∷ add_failing transfer stopped caught
    ∷ add transfer connection returned false
    ∷ []

-- "Cancel".
unfoldable pub cancel_transitions : List Transition
cancel_transitions =
    add publish_interfaces stopped (opened owner_canceled) true
    ∷ add connection stopped (opened owner_canceled) true
    ∷ add wait_for_peer stopped (opened owner_canceled) true
    ∷ add transfer stopped (opened owner_canceled) true
    ∷ []

-- "Failure".
unfoldable pub failure_transitions : List Transition
failure_transitions =
    add_failing publish_interfaces stopped caught
    ∷ add_failing wait_for_peer stopped caught
    ∷ add connection connection (caught_specific network) false
    ∷ add_failing connection stopped caught
    ∷ add_failing transfer stopped caught
    ∷ []

-- "Pause".
unfoldable pub pause_transitions : List Transition
pause_transitions =
    add cloud_synchronize paused (opened owner_paused) true
    ∷ add publish_interfaces paused (opened owner_paused) true
    ∷ add connection paused (opened owner_paused) true
    ∷ add wait_for_peer paused (opened owner_paused) true
    ∷ add transfer paused (opened owner_paused) true
    ∷ add cloud_buffer paused (opened owner_paused) true
    ∷ add paused cloud_synchronize (opened owner_not_paused) true
    ∷ []

unfoldable pub transitions : List Transition
unfolding start_transitions buffer_transitions finish_transitions transfer_transitions
    cancel_transitions failure_transitions pause_transitions
transitions =
    start_transitions
    ++ (buffer_transitions
        ++ (finish_transitions
            ++ (transfer_transitions
                ++ (cancel_transitions ++ (failure_transitions ++ pause_transitions)))))
