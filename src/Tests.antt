-- ===== src/Tests.antt =====
-- Runs of the models at concrete inputs, over a flat memory that meets the emulator's laws.
pub mod Flat
mod TimerRuns
mod PeripheralRuns
mod PollingRuns
mod RscanRuns
mod SuperHRuns
mod BypassRuns
pub mod Loop
mod LoopRuns
