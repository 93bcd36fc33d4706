-- ===== src/Gap/Send.antt =====
-- fist/src/surface/gap/SendMachine.cc and PeerSendMachine.cc: the sender of a transaction.
pub mod Cloud
pub mod Cursor
pub mod Claiming
pub mod Workers
pub mod Uploaded
pub mod Acknowledged
pub mod Multipart
pub mod Parts
pub mod Numbers
pub mod Turns
pub mod Assembled
pub mod Whole
pub mod Finalized
pub mod Google
pub mod Table
pub mod Machine
pub mod Steps
pub mod Kept
pub mod Answered
pub mod Payment
pub mod Restore
