-- ===== src/Gap/Receive.antt =====
-- fist/src/surface/gap: the machine of a transaction on the recipient's side.
pub mod Status
pub mod Table
pub mod Machine
pub mod Restore
pub mod Consent
pub mod Waiting
pub mod Outcome
pub mod Writer
pub mod Blocks
pub mod Written
pub mod Cut
pub mod Received
pub mod Accepted
pub mod Finishing
pub mod Naming
pub mod Placing
pub mod Fetcher
pub mod Preparing
pub mod Fetching
pub mod Resuming
pub mod Settled
