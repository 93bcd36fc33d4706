-- ===== src/Gap/Ghost.antt =====
-- fist/src/surface/gap/GhostReceiveMachine.cc: the recipient of files that were uploaded before the
-- recipient had an account.
pub mod Download
pub mod Whole
pub mod Complete
pub mod Machine
pub mod Waiting
pub mod Restart
