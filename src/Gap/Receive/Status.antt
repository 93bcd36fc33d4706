-- ===== src/Gap/Receive/Status.antt =====
-- The statuses of a transaction: infinit::oracles::Transaction::Status and gap_TransactionStatus,
-- and TransactionMachine.cc, `_end`, which shows the last one.
use infinit_io.Base.{Bool, true, false}

-- oracles/src/infinit/oracles/transaction.py names them.
pub data Status : Type 0 where
  accepted canceled created failed finished initialized none rejected started deleted : Status
  ghost_uploaded cloud_buffered : Status

-- gap_transaction_…
pub data Shown : Type 0 where
  new on_other_device waiting_accept waiting_data connecting transferring cloud_buffered : Shown
  finished failed canceled rejected deleted paused payment_required : Shown

-- The `switch` of `_end`; the last clause is "impossible final status".
unfoldable pub end_status : Status → Shown
end_status Status.finished = Shown.finished
end_status ghost_uploaded = Shown.finished
end_status Status.rejected = Shown.rejected
end_status Status.canceled = Shown.canceled
end_status Status.failed = Shown.failed
end_status _ = Shown.failed

-- Transaction.cc, `status_gap_from_meta`.
unfoldable pub status_gap_from_meta : Status → Shown
status_gap_from_meta Status.canceled = Shown.canceled
status_gap_from_meta Status.failed = Shown.failed
status_gap_from_meta Status.finished = Shown.finished
status_gap_from_meta ghost_uploaded = Shown.finished
status_gap_from_meta Status.rejected = Shown.rejected
status_gap_from_meta Status.deleted = Shown.deleted
status_gap_from_meta _ = on_other_device

-- A server that speaks to old clients says `initialized` for `cloud_buffered`.
unfoldable pub is_rollback : Status → Status → Bool
is_rollback Status.cloud_buffered Status.initialized = true
is_rollback _ _ = false

unfoldable pub is_deletion : Status → Status → Bool
is_deletion Status.deleted Status.deleted = false
is_deletion _ Status.deleted = true
is_deletion _ _ = false
