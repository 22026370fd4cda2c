-- ===== src/Tests.antt =====
-- The theorems at concrete inputs, over the scripted host and over thousandths for doubles.
mod Data
mod Plans
mod Injection
mod Threads
mod Tracking
mod Monitor
mod Signals
mod Maps
mod Opening
mod Restoring
mod Living
mod Stopping
mod Isolation
mod Failing
mod Handshaking
mod Twice
