-- ===== src/Apertus.antt =====
-- oracles/apertus: the relay that joins two clients that cannot reach each other.
pub mod Greeting
pub mod State
pub mod Ownership
pub mod Pairing
pub mod Joining
pub mod Relay
