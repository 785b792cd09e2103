-- ===== src/Update.antt =====
-- Self-update, internal/selfupdate/selfupdate.go.
pub mod Files
pub mod Checksums
pub mod Run
pub mod Swap
pub mod Verified
pub mod Back
