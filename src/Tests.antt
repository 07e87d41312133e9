-- ===== src/Tests.antt =====
-- The theorems at concrete inputs, and the data they share.
mod Toy
mod Formats
mod Clients
mod Keys
mod Enclave
mod Server
mod VpnClient
mod Program
mod Config
mod Joint
mod Tools
