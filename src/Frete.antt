-- ===== src/Frete.antt =====
-- frete: the files of a transfer and the progress made on them.
pub mod Files
pub mod Snapshot
pub mod Moved
pub mod Filling
pub mod Progress
pub mod Listing
pub mod Server
pub mod Cache
pub mod Reads
pub mod Stored
