-- ===== src/Tests.antt =====
-- The theorems at concrete inputs: a protocol exchange, a small daemon, and a buffer of two.
mod Protocol
mod Engine
mod Audio
mod Client
mod Settings
mod Dsp
