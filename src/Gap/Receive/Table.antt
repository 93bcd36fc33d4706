-- ===== src/Gap/Receive/Table.antt =====
-- TransactionMachine.cc, ReceiveMachine.cc and PeerMachine.cc, the constructors: the states of a
-- transaction's machine and the transitions between them.
use infinit_io.Base.{Bool, true, false, List, [], ◌∷◌, ◌++◌}

pub data State : Type 0 where
  another_device cancel end fail finish reject transfer wait_for_decision accept : State

pub data Barrier : Type 0 where
  finished rejected canceled failed accepted accepted_elsewhere reset_transfer : Barrier

-- The end of the state's action, an open barrier, or an exception of the action.
pub data Trigger : Type 0 where
  returned : Trigger
  opened : Barrier → Trigger
  caught : Trigger

-- What a transition does with the exception: log it, record it, record it where there is no
-- reason yet, or record it and open `failed`.
pub data Action : Type 0 where
  nothing record_reason record_first_reason record_and_fail : Action

pub record Transition : Type 0 where
  pub source : State
  pub target : State
  pub trigger : Trigger
  pub preempts : Bool
  pub action : Action

abbrev add : State → State → Trigger → Bool → Transition
add s t g p = record { source = s; target = t; trigger = g; preempts = p; action = nothing }

abbrev add_catch : State → State → Action → Transition
add_catch s t a = record { source = s; target = t; trigger = caught; preempts = false; action = a }

-- `_setup_end_state`.
unfoldable pub setup_end_state : State → List Transition
setup_end_state s =
    add s end (opened finished) true
    ∷ add s cancel (opened canceled) true
    ∷ add s fail (opened failed) true
    ∷ add_catch s fail record_reason
    ∷ []

-- `TransactionMachine::TransactionMachine`.
unfoldable pub transaction_transitions : List Transition
unfolding setup_end_state
transaction_transitions =
    setup_end_state transfer
    ++ (setup_end_state another_device
        ++ (add another_device end (opened finished) false
            ∷ add another_device cancel (opened canceled) false
            ∷ add another_device end (opened failed) false
            ∷ add finish end returned false
            ∷ add cancel end returned false
            ∷ add fail end returned false
            ∷ add reject end returned false
            ∷ add_catch fail end nothing
            ∷ add_catch cancel end record_and_fail
            ∷ add_catch finish end record_and_fail
            ∷ []))

-- `ReceiveMachine::ReceiveMachine`.
unfoldable pub receive_transitions : List Transition
receive_transitions =
    add transfer finish returned false
    ∷ add wait_for_decision accept (opened accepted) false
    ∷ add accept transfer returned false
    ∷ add wait_for_decision another_device (opened accepted_elsewhere) false
    ∷ add wait_for_decision reject (opened rejected) false
    ∷ add wait_for_decision cancel (opened canceled) true
    ∷ add wait_for_decision finish (opened finished) true
    ∷ add accept cancel (opened canceled) true
    ∷ add reject cancel (opened canceled) true
    ∷ add_catch wait_for_decision fail record_first_reason
    ∷ add_catch accept fail record_first_reason
    ∷ add_catch reject fail record_first_reason
    ∷ []

-- `PeerMachine::PeerMachine`.
unfoldable pub peer_transitions : List Transition
peer_transitions = add transfer transfer (opened reset_transfer) true ∷ []

unfoldable pub transitions : List Transition
unfolding transaction_transitions receive_transitions peer_transitions
transitions = transaction_transitions ++ (receive_transitions ++ peer_transitions)
