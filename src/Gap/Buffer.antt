-- ===== src/Gap/Buffer.antt =====
-- fist/src/surface/gap/S3TransferBufferer.cc: the blocks kept in the cloud.
pub mod Listing
pub mod Listed
