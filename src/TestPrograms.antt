-- ===== src/TestPrograms.antt =====
-- The programs that try out the parts by hand: VPN/src/server/test_enclave_ipc.c,
-- VPN/src/client/udp_test_client.c and VPN/src/server/tun_test.c.
pub mod EnclaveIpc
pub mod UdpClient
pub mod TunTest
