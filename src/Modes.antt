-- ===== src/Modes.antt =====
-- main.go: `main` and the modes `host`, `enclave` and `config`.
pub mod Calls
pub mod Host
pub mod Enclave
pub mod Transfer
pub mod Meeting
pub mod Dispatch
