-- ===== src/Config.antt =====
-- config.go: the configuration, its defaults and its validation.
pub mod Schema
pub mod Hostname
pub mod Addr
pub mod Check
pub mod Address
pub mod Decode
pub mod Validate
