-- ===== src/Tests.antt =====
-- Runs of the model at concrete inputs, and the theorems at concrete inputs.
mod ConfigCases
mod HostsCases
mod NsmCases
mod BridgeCases
mod LineCases
mod DeviceCases
mod FileCases
mod LoopbackCases
mod DecodeCases
mod ServeCases
mod ModeCases
mod ScriptCases
mod IdleCases
mod EnclaveCases
