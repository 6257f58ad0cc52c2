-- ===== src/Nsm.antt =====
-- nsm.go: the attestation and random number service.
pub mod Hex
pub mod Token
pub mod Request
pub mod Legacy
pub mod JsonLine
pub mod Lines
pub mod Serve
pub mod Device
