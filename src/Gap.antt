-- ===== src/Gap.antt =====
-- fist/src/surface/gap: the machines that drive a transaction on a client.
pub mod Transferer
pub mod Receive
pub mod Send
pub mod Choice
pub mod Ghost
pub mod Buffer
