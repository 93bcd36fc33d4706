-- ===== src/Trophonius.antt =====
-- oracles/trophonius: the server that keeps a connection to each online user's devices.
pub mod User
pub mod Server
pub mod Invariant
pub mod Places
pub mod Memory
pub mod Devices
pub mod Login
pub mod Refusal
pub mod Quiet
