-- ===== src/Tests/Tools.antt =====
-- The theorems of the test programs at concrete inputs.
use cloud_service.Base.{
  ℕ, ◌≡◌, ◌<◌, refl, true, Option, none, some, [], ◌∷◌, arith, replicate, Bool,
}
use cloud_service.Clients.{init_client_table, add_client}
use cloud_service.Clients.Invariant.{init-IsValid}
use cloud_service.Crypto.{crypto_ecdh, crypto_derive_session_key}
use cloud_service.Enclave.{Enclave}
use cloud_service.EnclaveClient.Peer.{enclave_exchange, link_to}
use cloud_service.Keys.{perform_handshake, max_keys, add_key, init_key_manager}
use cloud_service.Slots.{find_slot}
use cloud_service.Protocol.{connect_request_bytes}
use cloud_service.Server.{Server, udp_sent, handle_udp_to_tun}
use cloud_service.TestPrograms.EnclaveIpc.{test_enclave_ipc}
use cloud_service.TestPrograms.EnclaveIpc.Works.{Works, test_enclave_ipc-Works}
use cloud_service.TestPrograms.UdpClient.{
  Inputs, success, read_verdict, test_request, data_packet, udp_test_client,
}
use cloud_service.TestPrograms.UdpClient.Connects.{test_request-read_verdict}
use cloud_service.TestPrograms.UdpClient.Packets.{Ends, udp_test_client-Ends}
use cloud_service.TestPrograms.UdpClient.Server.{data_packet-handle_udp_to_tun}
use cloud_service.Tests.Program.{system, all_well}
use cloud_service.Tests.Toy.{
  toy, nonce, buffer, ip, idle, idle-Ready, keyed, keyed-Ready, alice, moment,
}
use cloud_service.Tests.Server.{server, with_alice-IsValid}
use cloud_service.Text.{codes}
use cloud_service.Wire.{Bytes, Run, done}

abbrev peer : Run Enclave → Bytes → Option (Run Enclave × Bytes)
peer = enclave_exchange toy nonce buffer

room_left : keyed.manager.count < max_keys
unfolding add_key find_slot init_key_manager
room_left = omega arith

test_enclave_ipc-Works_example :
    Works ip keyed system (test_enclave_ipc peer all_well (done keyed) system [])
test_enclave_ipc-Works_example =
    test_enclave_ipc-Works keyed-Ready room_left ip (omega arith) all_well system []

abbrev inputs : Inputs
inputs = record {
  connect_clock = record { tv_sec = 1; tv_usec = 0 };
  ping_clock = record { tv_sec = 2; tv_usec = 0 };
  data_clock = record { tv_sec = 2; tv_usec = 500 };
  stale_name = replicate 32 9;
  stale = replicate 2048 0;
  received = none;
}

abbrev any_text : Bytes → Bool
any_text text = true

udp_test_client-Ends_example :
    Ends all_well any_text inputs system
      (udp_test_client all_well any_text inputs system (codes "127.0.0.1" ∷ []))
udp_test_client-Ends_example =
    udp_test_client-Ends all_well any_text inputs system (codes "127.0.0.1" ∷ [])

data_packet-handle_udp_to_tun_example :
    (v : Server (Run Enclave)) × (handle_udp_to_tun peer moment server []
        (some (data_packet inputs, alice))
      ≡ done (v, []))
data_packet-handle_udp_to_tun_example =
    data_packet-handle_udp_to_tun keyed-Ready moment inputs server [] alice 4 with_alice-IsValid
      refl

abbrev open_server : Server (Run Enclave)
open_server = record { table = init_client_table; link = link_to idle 1; sequence = 0 }

abbrev derived : Bytes
derived = crypto_derive_session_key toy (replicate 32 0xae) []

shook :
    (perform_handshake toy idle.manager
      (add_client open_server.table alice 100 7).1
      (replicate 32 0xab)).1
    ≡ some derived
unfolding perform_handshake crypto_ecdh init_key_manager
shook = refl

test_request-read_verdict_example :
    (v : Server (Run Enclave)) × (answer : Bytes) × (session : ℕ) × (handle_udp_to_tun peer moment
        open_server []
        (some (connect_request_bytes (test_request inputs), alice))
      ≡ done (v, udp_sent answer alice ∷ []))
    × (read_verdict [] (some answer) ≡ success (add_client open_server.table alice 100 7).1 session)
unfolding init_client_table
test_request-read_verdict_example =
    test_request-read_verdict idle-Ready moment inputs open_server [] [] derived alice 1
      init-IsValid (omega arith) refl refl shook
