-- ===== src/Examples.antt =====
-- The theorems at concrete inputs.
mod Transfers
mod Uploads
mod Transferring
mod Receiving
mod Writing
mod Relaying
mod Logins
mod Fetching
mod Placing
mod Ghosts
mod Sending
mod Senders
mod Stations
mod Listings
