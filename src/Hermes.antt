-- ===== src/Hermes.antt =====
-- oracles/hermes: the store of the chunks of files that a transfer buffers.
pub mod Chunk
pub mod Clerk
pub mod Upload
pub mod Overlap
