-- ===== src/Gap/Send/Machine.antt =====
-- TransactionMachine.cc, SendMachine.cc, PeerSendMachine.cc and LinkSendMachine.cc: what the states of a
-- sender's machine do, what reaches it from outside, and its steps. reactor::fsm runs the machine: a
-- step may take any transition from the current state whose trigger holds, whatever their order. The uploads stand in
-- modules of their own and are here as the way they end; metrics, crash reports, mirrored files and
-- the snapshot on disk are left out.
use infinit_io.Base.{ℕ, String, Bool, true, false, not, ◌&&◌, Option, some, ltb, if◌then◌else◌}
use infinit_io.Gap.Receive.Status.{Status, Shown, end_status}
use infinit_io.Gap.Send.Table.{
  State, another_device, cancel, end, fail, finish, reject, transfer, create_transaction,
  initialize_transaction, wait_for_accept, Barrier, ghost_uploaded, reset_transfer, Trigger,
  returned, opened, caught, caught_quota, Action, record_reason, record_and_fail, ask_payment, Kind,
  peer, link,
}

pub record World : Type 0 where
  pub finished : Bool
  pub rejected : Bool
  pub canceled : Bool
  pub failed : Bool
  pub accepted : Bool
  pub uploaded : Bool  -- the barrier ghost_uploaded()
  pub reset : Bool
  pub has_id : Bool
  pub this_device : Bool  -- concerns_this_device()
  pub is_ghost : Bool
  pub status : Status  -- data()->status
  pub shown : Shown  -- gap_status()
  pub over : Bool
  pub failure_reason : Option String

unfoldable pub is_open : Barrier → World → Bool
is_open Barrier.finished w = w.finished
is_open Barrier.rejected w = w.rejected
is_open Barrier.canceled w = w.canceled
is_open Barrier.failed w = w.failed
is_open Barrier.accepted w = w.accepted
is_open ghost_uploaded w = w.uploaded
is_open reset_transfer w = w.reset

-- `_finalize`.
unfoldable pub finalize : Status → Bool → World → World
finalize s meta_takes_it w =
    if w.has_id then (if meta_takes_it then record w { status = s } else w) else w

-- `_end`.
unfoldable pub end_transaction : World → World
unfolding end_status
end_transaction w = record w { shown = end_status w.status; over = true }

-- The feature `preemptive_buffering_delay`.
pub data Delay : Type 0 where
  absent : Delay
  negative : Delay
  seconds : ℕ → Delay

-- What the sender knows of the recipient and of the configuration.
pub record Facts : Type 0 where
  pub to_self : Bool
  pub online : Bool
  pub online_elsewhere : Bool  -- on a device that is not this one
  pub ghost : Bool
  pub total_size : ℕ
  pub max_cloud_buffer_size : ℕ
  pub delay : Delay

pub data Course : Type 0 where
  plain_upload : Course
  already_buffered : Course
  cloud_upload : Course
  cloud_upload_after : ℕ → Course
  waits_only : Course

unfoldable pub cloud_allowed : Facts → Bool
cloud_allowed k =
    let limit = (if ltb 0 k.max_cloud_buffer_size then k.max_cloud_buffer_size else 10000000000) in
    ltb k.total_size limit

preempt : Delay → Course
preempt absent = waits_only
preempt negative = waits_only
preempt (seconds n) = cloud_upload_after n

unfoldable pub is_buffered : Status → Bool
is_buffered Status.cloud_buffered = true
is_buffered _ = false

-- `PeerSendMachine::_wait_for_accept`: which way the files go while the recipient has not answered.
unfoldable pub wait_course : Facts → World → Course
unfolding cloud_allowed preempt is_buffered
wait_course k w =
    let peer_online = if k.to_self then k.online_elsewhere else k.online in
    if w.is_ghost
    then plain_upload
    else if is_buffered w.status
    then already_buffered
    else if not k.ghost && not peer_online && cloud_allowed k
    then cloud_upload
    else if not k.ghost && cloud_allowed k
    then preempt k.delay
    else waits_only

course_shown : Course → Shown
course_shown plain_upload = Shown.transferring
course_shown already_buffered = Shown.cloud_buffered
course_shown cloud_upload = Shown.transferring
course_shown (cloud_upload_after n) = Shown.waiting_accept
course_shown waits_only = Shown.waiting_accept

transfer_shown : Kind → World → World
transfer_shown peer w = w
transfer_shown link w = record w { shown = Shown.transferring }

-- What a state's action does at once.
unfoldable pub enter : Kind → State → Facts → World → World
unfolding wait_course course_shown transfer_shown end_transaction
enter kind end k w = end_transaction w
enter kind another_device k w = record w { shown = Shown.on_other_device }
enter peer initialize_transaction k w = record w { shown = Shown.new }
enter kind wait_for_accept k w = record w { shown = course_shown (wait_course k w) }
enter kind transfer k w = transfer_shown kind w
enter kind _ k w = w

-- How the action of a state ended: cut short before it had an effect, with meta's answer and
-- whether the recipient is a ghost, with the transaction canceled as a file was not to be read, or
-- by an exception.
pub data Outcome : Type 0 where
  cut_short : Outcome
  ended : Bool → Bool → Outcome
  source_missing : Outcome
  threw : String → Outcome
  quota_exceeded : String → Outcome

-- The upload of `_wait_for_accept` has ended.
unfoldable pub waited : Course → Bool → World → World
waited plain_upload ok w = record w { uploaded = true }
waited already_buffered ok w = w
waited cloud_upload ok w = if ok then record w { shown = Shown.cloud_buffered } else w
waited (cloud_upload_after n) ok w = if ok then record w { shown = Shown.cloud_buffered } else w
waited waits_only ok w = w

uploads : Course → Bool
uploads plain_upload = true
uploads already_buffered = false
uploads cloud_upload = true
uploads (cloud_upload_after n) = true
uploads waits_only = false

-- The status by which a transaction is finished.
unfoldable pub finish_status : Kind → World → Status
finish_status peer w = if w.is_ghost then Status.ghost_uploaded else Status.finished
finish_status link w = Status.finished

-- For a link the data that meta answers are not looked at.
initialized : Kind → Bool → World → World
initialized peer ghost w = record w { has_id = true; is_ghost = ghost; status = Status.initialized }
initialized link ghost w = record w { has_id = true }

-- What a state's action has done when it ends; `canceled` is opened where the files cannot be read
-- while they are uploaded, and `ghost_uploaded` all the same where the recipient is a ghost.
unfoldable pub leave : Kind → State → Facts → Outcome → World → World
unfolding finalize waited uploads initialized finish_status wait_course
leave kind finish k (ended ok g) w = finalize (finish_status kind w) ok w
leave kind cancel k (ended ok g) w = finalize Status.canceled ok w
leave kind reject k (ended ok g) w = finalize Status.rejected ok w
leave kind fail k (ended ok g) w = finalize Status.failed ok w
leave kind create_transaction k (ended ok g) w = record w { has_id = true }
leave kind initialize_transaction k (ended ok g) w = initialized kind g w
leave kind wait_for_accept k (ended ok g) w = waited (wait_course k w) ok w
leave kind wait_for_accept k source_missing w =
    if uploads (wait_course k w)
    then record w { canceled = true; uploaded = if w.is_ghost then true else w.uploaded }
    else w
leave link transfer k source_missing w = record w { canceled = true }
leave kind _ k _ w = w

unfoldable pub holds : Trigger → Outcome → World → Bool
unfolding is_open
holds (opened b) o w = is_open b w
holds returned (ended ok g) w = true
holds returned source_missing w = true
holds caught (threw e) w = true
holds caught (quota_exceeded e) w = true
holds caught_quota (quota_exceeded e) w = true
holds _ _ w = false

unfoldable pub act : Action → Outcome → World → World
act record_reason (threw e) w = record w { failure_reason = some e }
act record_and_fail (threw e) w = record w { failure_reason = some e; failed = true }
act record_reason (quota_exceeded e) w = record w { failure_reason = some e }
act ask_payment (quota_exceeded e) w = record w { shown = Shown.payment_required }
act _ _ w = w
