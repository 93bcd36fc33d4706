-- ===== src/Gap/Choice.antt =====
-- Transaction.cc, the constructors: which machine drives a transaction on this device, for one that meta
-- tells of and for one that has a snapshot. Users and devices are compared by their ids.
use infinit_io.Base.{
  Option, none, some, ℕ, ◌≡◌, Bool, true, false, not, ◌&&◌, ◌||◌, ◌==◌, if◌then◌else◌,
}
use infinit_io.Gap.Receive.Status.{Status}

-- The machines, by the constructors that are called; `none_runs` where there is none.
pub data Machine : Type 0 where
  peer_send peer_send_elsewhere peer_send_to_fail peer_receive ghost_receive : Machine
  link_send link_send_elsewhere link_send_to_fail none_runs : Machine

-- Who sends what to whom, on which device of which user.
pub record Parties : Type 0 where
  pub me : ℕ
  pub device : ℕ
  pub sender : ℕ
  pub sender_device : ℕ
  pub recipient : ℕ
  pub is_ghost : Bool
  pub status : Status

unfoldable pub is_uploaded : Status → Bool
is_uploaded Status.ghost_uploaded = true
is_uploaded _ = false

unfoldable pub is_finished : Status → Bool
is_finished Status.finished = true
is_finished _ = false

-- `_sender` of a transaction that meta tells of.
unfoldable pub is_sender : Parties → Bool
is_sender p = p.me == p.sender && p.device == p.sender_device

sent_from_data : Parties → Machine
sent_from_data p =
    if p.me == p.recipient && not (p.device == p.sender_device)
    then peer_receive
    else if p.device == p.sender_device
    then peer_send_to_fail
    else peer_send_elsewhere

received : Parties → Machine
received p = if p.is_ghost then ghost_receive else peer_receive

-- A transaction with a user, from meta's data; one of the history has no machine.
unfoldable pub peer_from_data : Bool → Parties → Machine
unfolding is_uploaded sent_from_data received
peer_from_data history p =
    if history
    then none_runs
    else if p.me == p.sender
    then (if p.is_ghost && is_uploaded p.status then none_runs else sent_from_data p)
    else if p.me == p.recipient
    then received p
    else none_runs

-- A link, from meta's data.
unfoldable pub link_from_data : Bool → Parties → Machine
unfolding is_finished
link_from_data history p =
    if history
    then none_runs
    else if p.device == p.sender_device && not (is_finished p.status)
    then link_send_to_fail
    else link_send_elsewhere

-- What the constructor from a snapshot makes, or that it throws, since a cancellation wants a machine.
pub data Made : Type 0 where
  made : Machine → Made
  bad_operation : Made

-- What `on_transaction_update` with meta's data leaves of the choice: `_data` is meta's, where the snapshot
-- has an id to ask for.
unfoldable pub refreshed : Parties → Option Parties → Parties
refreshed p none = p
refreshed p (some m) = m

-- A transaction with a user, from its snapshot `p` and meta's data; `from_here` is the snapshot's `sender`,
-- and `files` says whether it has files. The sender and the recipient are still read from the snapshot's data.
unfoldable pub peer_from_snapshot : Bool → Bool → Parties → Option Parties → Made
unfolding is_uploaded received refreshed
peer_from_snapshot from_here files p meta =
    if p.is_ghost && is_uploaded p.status && (from_here || p.sender == p.me)
    then made none_runs
    else if from_here
    then (if files then made peer_send else bad_operation)
    else if p.sender == p.me && not (p.recipient == p.me)
    then made peer_send_elsewhere
    else made (received (refreshed p meta))

-- A link, from its snapshot.
unfoldable pub link_from_snapshot : Bool → Machine
link_from_snapshot from_here = if from_here then link_send else link_send_elsewhere

-- What a snapshot has in common with meta's data when it is not out of date.
pub record AreSame (p m : Parties) : Type 0 where
  pub me : p.me ≡ m.me
  pub device : p.device ≡ m.device
  pub sender : p.sender ≡ m.sender
  pub sender_device : p.sender_device ≡ m.sender_device
  pub recipient : p.recipient ≡ m.recipient
  pub is_ghost : p.is_ghost ≡ m.is_ghost
  pub uploaded : is_uploaded p.status ≡ is_uploaded m.status
