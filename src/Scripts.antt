-- ===== src/Scripts.antt =====
-- scripts/: the programs that run argonaut on a Nitro instance.
pub mod Smoke
pub mod Bench
