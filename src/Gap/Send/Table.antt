-- ===== src/Gap/Send/Table.antt =====
-- TransactionMachine.cc, SendMachine.cc, PeerSendMachine.cc, LinkSendMachine.cc and PeerMachine.cc, the
-- constructors: the states of a sender's machine and the transitions between them, for files sent to
-- a user and for files put behind a link.
use infinit_io.Base.{Bool, true, false, List, [], ◌∷◌, ◌++◌}

pub data State : Type 0 where
  another_device cancel end fail finish reject transfer : State
  create_transaction initialize_transaction wait_for_accept : State

pub data Barrier : Type 0 where
  finished rejected canceled failed accepted ghost_uploaded reset_transfer : Barrier

-- The end of the state's action, an open barrier, an exception of the action, or one of the kind
-- QuotaExceeded.
pub data Trigger : Type 0 where
  returned : Trigger
  opened : Barrier → Trigger
  caught : Trigger
  caught_quota : Trigger

-- What a transition does with the exception: log it, record it, record it and open `failed`, or
-- ask for a payment.
pub data Action : Type 0 where
  nothing record_reason record_and_fail ask_payment : Action

pub record Transition : Type 0 where
  pub source : State
  pub target : State
  pub trigger : Trigger
  pub preempts : Bool
  pub action : Action

abbrev add : State → State → Trigger → Bool → Transition
add s t g p = record { source = s; target = t; trigger = g; preempts = p; action = nothing }

abbrev add_catch : State → State → Trigger → Action → Transition
add_catch s t g a = record { source = s; target = t; trigger = g; preempts = false; action = a }

-- `_setup_end_state`.
unfoldable pub setup_end_state : State → List Transition
setup_end_state s =
    add s end (opened finished) true
    ∷ add s cancel (opened canceled) true
    ∷ add s fail (opened failed) true
    ∷ add_catch s fail caught record_reason
    ∷ []

-- `TransactionMachine::TransactionMachine`.
unfoldable pub transaction_transitions : List Transition
unfolding setup_end_state
transaction_transitions =
    setup_end_state transfer
    ++ (setup_end_state another_device
        ++ (add another_device end (opened finished) false
            ∷ add another_device cancel (opened canceled) false
            ∷ add another_device end (opened failed) false
            ∷ add finish end returned false
            ∷ add cancel end returned false
            ∷ add fail end returned false
            ∷ add reject end returned false
            ∷ add_catch fail end caught nothing
            ∷ add_catch cancel end caught record_and_fail
            ∷ add_catch finish end caught record_and_fail
            ∷ []))

-- `SendMachine::SendMachine`, both constructors.
unfoldable pub send_transitions : List Transition
unfolding setup_end_state
send_transitions =
    add create_transaction initialize_transaction returned false
    ∷ (setup_end_state create_transaction
        ++ (setup_end_state initialize_transaction
            ++ (add_catch create_transaction fail caught record_reason
                ∷ add_catch create_transaction fail caught record_reason
                ∷ [])))

-- `PeerMachine::PeerMachine`, and `PeerSendMachine::PeerSendMachine` on the sender's device.
unfoldable pub peer_transitions : List Transition
unfolding setup_end_state
peer_transitions =
    add transfer transfer (opened reset_transfer) true
    ∷ (setup_end_state wait_for_accept
        ++ (add initialize_transaction wait_for_accept returned false
            ∷ add wait_for_accept finish (opened ghost_uploaded) true
            ∷ add wait_for_accept transfer (opened accepted) true
            ∷ add wait_for_accept end (opened rejected) true
            ∷ []))

-- `LinkSendMachine::LinkSendMachine` on the sender's device.
unfoldable pub link_transitions : List Transition
link_transitions =
    add initialize_transaction transfer returned false
    ∷ add transfer finish returned false
    ∷ add_catch create_transaction end caught_quota ask_payment
    ∷ add_catch initialize_transaction end caught_quota ask_payment
    ∷ []

pub data Kind : Type 0 where
  peer link : Kind

unfoldable pub transitions : Kind → List Transition
unfolding transaction_transitions send_transitions peer_transitions link_transitions
transitions peer = transaction_transitions ++ (send_transitions ++ peer_transitions)
transitions link = transaction_transitions ++ (send_transitions ++ link_transitions)
