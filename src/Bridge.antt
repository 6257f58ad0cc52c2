-- ===== src/Bridge.antt =====
-- main.go: the bridges between TCP and VSOCK.
pub mod Limiter
pub mod Plan
pub mod Accept
pub mod Copy
pub mod Write
pub mod Dial
pub mod Env
pub mod Idle
