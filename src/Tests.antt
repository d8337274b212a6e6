-- ===== src/Tests.antt =====
-- The theorems at concrete inputs, and runs of the definitions.
mod Devices
mod Stores
mod Proxy
mod Panel
mod Network
mod Host
mod Relay
