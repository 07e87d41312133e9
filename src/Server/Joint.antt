-- ===== src/Server/Joint.antt =====
-- The server and its enclave together: the event loop of VPN/src/server/vpn_server.c with the process
-- of VPN/src/enclave/enclave_main.c at the other end of its IPC connection.
pub mod Keyed
pub mod Keys
pub mod State
pub mod Handlers
pub mod Handshake
pub mod Packets
pub mod Rounds
pub mod Turns
pub mod Start
pub mod Reached
