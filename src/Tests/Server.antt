-- ===== src/Tests/Server.antt =====
-- The theorems of the server and of its calls of the enclave at concrete packets.
use cloud_service.Base.{
  ◌≤◌, if◌then◌else◌, ℕ, ◌+◌, ◌^◌, ◌<◌, ◌≡◌, ◌≢◌, refl, ap, arith, [], ◌∷◌, ◌++◌, false, Option,
  none, some, replicate, length, length-replicate,
}
use cloud_service.Clients.{
  SockAddr, generate_session_id, max_clients, last_ip, ClientEntry, init_client_table,
  find_client_by_addr, find_client_by_vpn_ip, new_entry, add_client, add_new_client,
}
use cloud_service.Clients.Invariant.{init-IsValid, add_client-IsValid}
use cloud_service.Enclave.{Enclave}
use cloud_service.EnclaveClient.{Link, enclave_handshake, enclave_encrypt, enclave_decrypt}
use cloud_service.EnclaveClient.Calls.{next_id, with_public_key, enclave_handshake_lem}
use cloud_service.EnclaveClient.RoundTrip.{enclave_decrypt-enclave_encrypt}
use cloud_service.EnclaveClient.Peer.{enclave_exchange, link_to}
use cloud_service.Keys.{
  init_key_manager, add_key, get_key, get_server_public_key, perform_handshake,
}
use cloud_service.Protocol.{
  VpnHeader, header_bytes, init_vpn_header, pkt_data, read_header, read_connect_request,
}
use cloud_service.Enclave.Reference.{unseal}
use cloud_service.Protocol.RoundTrip.{init_vpn_header-HeaderFits}
use cloud_service.Server.Replay.{handle_udp_to_tun-replayed}
use cloud_service.Server.{
  tun_written, Server, Loop, Activity, readable, handle_udp_to_tun, handle_tun_to_udp,
  on_connect_req, on_packet,
}
use cloud_service.Server.Data.{handle_tun_to_udp_overflow}
use cloud_service.Server.Rounds.{Ready-SmallAnswers, AtMostPong, on_packet_stranger}
use cloud_service.Server.Safety.{Safely, handle_udp_to_tun-IsValid}
use cloud_service.Server.Connect.{on_connect_req-view, connect_answer, admitted}
use cloud_service.Clients.Unique.{init-IsFresh, init-UniqueAddr}
use cloud_service.Clients.View.{Session, view, same_addr, granted}
use cloud_service.Clients.Invariant.{IsValid}
use cloud_service.Slots.{find_slot}
use cloud_service.Tests.Toy.{
  toy, nonce, buffer, ip, idle, keyed, one_key, idle-Ready, keyed-Ready, client_key, alice, bob,
  moment, with_alice,
}
use cloud_service.Wire.{Bytes, Run, done, fault, load32, htonl}

abbrev pub peer : Run Enclave → Bytes → Option (Run Enclave × Bytes)
peer = enclave_exchange toy nonce buffer

enclave_handshake_lem_example : enclave_handshake peer (link_to idle 0) ip client_key ≡ (
  link_to
      (record idle { manager = (perform_handshake toy idle.manager ip client_key).0 })
      (next_id 0),
  with_public_key
      (get_server_public_key idle.manager)
      (perform_handshake toy idle.manager ip client_key).1,
)
enclave_handshake_lem_example = enclave_handshake_lem idle-Ready 0 ip client_key (omega arith) refl

one_key-known : get_key one_key ip ≢ none
unfolding get_key add_key init_key_manager find_slot
one_key-known h = absurd (cc h)

enclave_decrypt-enclave_encrypt_example :
    (sealed : Bytes) × (length sealed ≡ length {A = ℕ} (8 ∷ 9 ∷ []) + 28)
    × (enclave_encrypt peer (link_to keyed 0) ip (8 ∷ 9 ∷ [])
        ≡ (link_to keyed (next_id 0), some sealed))
    × (enclave_decrypt peer (link_to keyed (next_id 0)) ip sealed
        ≡ (link_to keyed (next_id (next_id 0)), some (8 ∷ 9 ∷ [])))
enclave_decrypt-enclave_encrypt_example =
    enclave_decrypt-enclave_encrypt 0 ip (8 ∷ 9 ∷ []) keyed-Ready (omega arith) (omega arith)
      one_key-known

-- a server that serves alice
abbrev pub server : Server (Run Enclave)
server = record { table = with_alice; link = link_to keyed 4; sequence = 10 }

abbrev pub alice_entry : ClientEntry
alice_entry = new_entry init_client_table alice 100 7

pub alice_known : find_client_by_addr with_alice alice ≡ some (0, alice_entry)
unfolding find_client_by_addr add_client init_client_table find_slot add_new_client
alice_known = refl

alice_ip : alice_entry.vpn_ip ≡ ip
unfolding init_client_table htonl
alice_ip = refl

bob_unknown : find_client_by_addr with_alice bob ≡ none
unfolding find_client_by_addr add_client init_client_table find_slot add_new_client
bob_unknown = refl

pub alice_ip_fits : alice_entry.vpn_ip < 2 ^ 32
alice_ip_fits = rw alice_ip (omega arith)

alice_keyed : get_key one_key alice_entry.vpn_ip ≢ none
unfolding get_key add_key init_key_manager find_slot init_client_table htonl
alice_keyed h = absurd (cc h)

pub with_alice-IsValid : IsValid with_alice
with_alice-IsValid = add_client-IsValid alice 100 7 init-IsValid

abbrev data_header : VpnHeader
data_header = (init_vpn_header moment.clock 0 pkt_data 32).0

data_header_type : data_header.type ≡ pkt_data
unfolding init_vpn_header
data_header_type = refl

-- an IPv4 header whose destination is 10.8.0.2
abbrev pub to_alice : Bytes
to_alice = 0x45 ∷ (replicate 15 0 ++ (10 ∷ 8 ∷ 0 ∷ 2 ∷ []))

pub alice_found : find_client_by_vpn_ip with_alice (load32 to_alice 16) ≡ some (0, alice_entry)
unfolding find_client_by_vpn_ip add_client init_client_table find_slot add_new_client htonl
alice_found = refl

-- 2005 bytes to the same destination
abbrev wide_to_alice : Bytes
wide_to_alice = to_alice ++ replicate 1985 0

wide_found : find_client_by_vpn_ip with_alice (load32 wide_to_alice 16) ≡ some (0, alice_entry)
unfolding find_client_by_vpn_ip add_client init_client_table find_slot add_new_client htonl
wide_found = refl

wide_length : length wide_to_alice ≡ 2005
wide_length = ap (λ n. 20 + n) (length-replicate {A = ℕ} 1985 0)

handle_tun_to_udp_overflow_example :
    handle_tun_to_udp peer moment server (some wide_to_alice) ≡ fault
handle_tun_to_udp_overflow_example =
    handle_tun_to_udp_overflow keyed-Ready moment server wide_to_alice 4 0 alice_entry refl
      (omega (arith, wide_length)) (omega (arith, wide_length)) (omega arith) wide_found
      alice_ip_fits alice_keyed

abbrev empty_server : Server (Run Enclave)
empty_server = record { table = init_client_table; link = link_to idle 0; sequence = 0 }

init_room : init_client_table.count < max_clients
unfolding init_client_table
init_room = omega arith

init_left : init_client_table.next_ip ≤ last_ip
unfolding init_client_table
init_left = omega arith

abbrev alice_session : Session
alice_session = granted init_client_table moment.now moment.random none

abbrev alice_handshake : Link (Run Enclave) × Option (Bytes × Bytes)
alice_handshake =
    enclave_handshake peer empty_server.link alice_session.vpn_ip
      (read_connect_request buffer).auth_token

on_connect_req-view_example :
    (alice_session.vpn_ip ≢ 0)
    × ((v' : Server (Run Enclave)) × (on_connect_req peer moment empty_server buffer alice
          ≡ done
              (v', connect_answer peer moment empty_server alice_session alice alice_handshake.1))
        × (v'.link ≡ alice_handshake.0)
        × ((b : SockAddr)
            → view v'.table b ≡ (
                if same_addr alice b
                then admitted alice_session alice_handshake.1
                else view init_client_table b)))
unfolding htonl find_client_by_addr generate_session_id init_client_table find_slot
on_connect_req-view_example =
    on_connect_req-view peer moment empty_server buffer alice init-IsValid init_room init-UniqueAddr
      init-IsFresh init_left

handle_udp_to_tun-IsValid_example :
    Safely
      (λ v. IsValid v.table)
      (handle_udp_to_tun peer moment server []
        (some (header_bytes data_header ++ client_key, alice)))
handle_udp_to_tun-IsValid_example =
    handle_udp_to_tun-IsValid peer moment server []
      (some (header_bytes data_header ++ client_key, alice)) with_alice-IsValid
      (Ready-SmallAnswers 4 keyed-Ready)

ping_type : (read_header (4 ∷ buffer)).type ≢ 1
unfolding read_header
ping_type = omega arith

on_packet_stranger_example :
    AtMostPong moment server bob (on_packet peer moment server (4 ∷ buffer) 16 bob)
on_packet_stranger_example =
    on_packet_stranger peer moment server (4 ∷ buffer) 16 bob bob_unknown ping_type

abbrev a_loop : Loop (Run Enclave)
a_loop = record { server = server; last_timeout_check = 90; outputs = []; leaving = false }

abbrev arrived : Activity
arrived = readable (some (some (header_bytes data_header ++ client_key, alice))) none

-- to_alice as the toy cipher seals it
abbrev sealed_to_alice : Bytes
sealed_to_alice = nonce ++ (replicate 16 0 ++ to_alice)

sealed_opens : unseal toy one_key alice_entry.vpn_ip sealed_to_alice ≡ some to_alice
unfolding unseal get_key add_key init_key_manager find_slot init_client_table htonl
sealed_opens = refl

handle_udp_to_tun-replayed_example :
    (v' : Server (Run Enclave)) × (v'' : Server (Run Enclave)) × (handle_udp_to_tun peer moment
        server []
        (some (header_bytes data_header ++ sealed_to_alice, alice))
      ≡ done (v', tun_written to_alice ∷ []))
    × (handle_udp_to_tun peer moment v' []
          (some (header_bytes data_header ++ sealed_to_alice, alice))
        ≡ done (v'', tun_written to_alice ∷ []))
handle_udp_to_tun-replayed_example =
    handle_udp_to_tun-replayed keyed-Ready keyed-Ready moment moment server [] [] alice 4 0
      alice_entry data_header data_header sealed_to_alice to_alice refl alice_known alice_ip_fits
      (init_vpn_header-HeaderFits moment.clock 0 pkt_data 32)
      (init_vpn_header-HeaderFits moment.clock 0 pkt_data 32) data_header_type data_header_type
      (omega arith) sealed_opens
