-- ===== src/Lib.antt =====
-- The VPN of this repository: a server that passes IP packets between a TUN interface and the UDP
-- sockets of its clients, and a separate process, the enclave, that holds the server's session
-- keys and does its encryption. The server knows the clients, the enclave knows the keys, and the
-- two speak a request-response protocol over a Unix socket.
--
-- Base, Slots: helpers. Base passes the library's names on, with Boolean tests on numbers and
--   lists over the native numbers; Slots is the search for the first slot of a table that fits.
-- Wire: bytes in memory and on the wire, byte order, and `Run`, in which a write past a buffer,
--   the use of a null pointer or the reading of a string past its array is `fault`.
-- Text: C strings as lists of bytes, and the functions of the C library that the sources call on
--   them; Numbers is `atoi` and `%d`, Strings is about arrays that hold a string.
-- System: what a program holds of the operating system: descriptors, children, commands run.
--   Sockets is VPN/src/server/tun_manager.c (IpPacket is its print_ip_packet), create_udp_server
--   of VPN/src/server/udp_server.c and the functions that open the two ends of the Unix socket;
--   Processes is VPN/src/server/enclave.c.
-- Protocol: VPN/include/protocol.h, VPN/src/common/protocol.c: the UDP packets.
-- Ipc: VPN/include/ipc_protocol.h, VPN/src/common/ipc_protocol.c: requests and responses.
-- Clients: VPN/src/server/client_manager.c: the table of 254 clients. Its functions carry their C
--   names. View is the specification, a partial map from addresses to sessions; Print is
--   print_client_table; Alloc is about whole runs of the table's calls.
-- Crypto: VPN/src/enclave/crypto.c. libsodium is the parameter `Sodium`; `AeadLaws` and
--   `ExchangeLaws` are what its documentation promises.
-- Keys: VPN/src/enclave/key_manager.c: the table of 256 session keys, and the handshake.
-- Enclave: VPN/src/enclave/enclave_main.c: `handle_ipc_request`, from the bytes on the socket to
--   the bytes on the socket, and the loop over one connection (`serve`, one `Turn` for each time
--   round; `Progress` says whether the loop has been left by then). Program is `main` with the
--   loop that accepts connections, Security the calls that protect its memory and the erasure of
--   the keys. Reference says what a request means, without buffers and lengths.
-- EnclaveClient: VPN/src/server/enclave_client.c: the server's calls, over an arbitrary process
--   at the other end. Peer puts the enclave there.
-- Server: VPN/src/server/vpn_server.c: both packet handlers and one round of the event loop, with
--   the calls that a handler makes as a list of outputs. Program is the start-up and the clean-up
--   of `main`, and its child Main the whole of `main`, with an enclave that may die. Connect is
--   what a connection request does to the sessions, Replay a DATA packet that comes a second
--   time. Joint is the server with the enclave at the other end of its connection, and `Reach`
--   the states that the two reach together, round by round, with a new nonce for each.
-- VpnClient: VPN/src/client/vpn_client.c: the connection exchange, key agreement, both packet
--   handlers and the keep-alive. EndToEnd puts the client, the server and the enclave together.
--   Program is the life of the client: reconnection, the set-up of socket and interface, the main
--   loop, and, in its children Arguments, Main and Whole, the rest of `main`; AtLoop in Reached
--   are the states in which a round of the loop starts.
-- TestPrograms: the programs that try out the parts by hand: VPN/src/server/test_enclave_ipc.c,
--   VPN/src/client/udp_test_client.c and VPN/src/server/tun_test.c, and what the server and the
--   enclave make of what they send.
-- Config: VPN/src/common/config.c, from the bytes of the file on; Print is config_print, and
--   EndMarks is about the end marks of the strings that it prints.
-- Logger: VPN/src/common/logger.c.
-- Tests: the theorems at concrete inputs, with a concrete `Sodium`.
--
-- Sizes are the source's: 254 clients, 256 keys, 4096 bytes of IPC data, 2048 bytes of packet,
-- lines of 511 bytes. Machine integers are natural numbers with the modulus written out. Loops
-- over tables recurse on their lists, and the programs' loops on the list of what their rounds
-- meet, which ends where a signal ends them. On fuel run only the reading of lines, where the
-- number of the file's bytes is enough, and the printing of a number n, where n + 1 is. The
-- clock, random numbers, nonces and what memory held before it was written are arguments; the
-- clock does not move within one handler. Whether a call of the system succeeds is an argument
-- too. A descriptor or process number is never used again in the model, while a system gives the
-- lowest free descriptor. Signals but the one that ends a loop and the SIGPIPE of a server that
-- is stopped after its enclave has died, a process at the other end that neither answers nor
-- closes, partial writes, most of what is printed, the name of the TUN interface in `ioctl` and
-- memory allocation in the server are not modelled. Not modelled either is the web service in
-- Java.
mod Base
pub mod Slots
pub mod Wire
pub mod Text
pub mod System
pub mod Protocol
pub mod Ipc
pub mod Clients
pub mod Crypto
pub mod Keys
pub mod Enclave
pub mod EnclaveClient
pub mod Server
pub mod VpnClient
pub mod TestPrograms
pub mod Config
pub mod Logger
mod Tests
