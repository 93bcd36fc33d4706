-- ===== src/Gap/Transferer.antt =====
-- fist/src/surface/gap/TransferMachine.cc and PeerTransferMachine.cc, with the triggers of
-- PeerMachine.cc: the machine that carries the data of a transaction.
pub mod Table
pub mod Run
pub mod Connection
pub mod Ending
