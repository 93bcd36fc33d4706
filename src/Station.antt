-- ===== src/Station.antt =====
-- station/src/station: the connections of a peer to the others.
pub mod Negotiation
pub mod Alone
pub mod Reached
