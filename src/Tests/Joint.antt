-- ===== src/Tests/Joint.antt =====
-- The theorems of the server and its enclave together at concrete rounds.
use cloud_service.Base.{
  ℕ, ◌+◌, ◌≡◌, refl, Option, none, some, [], ◌∷◌, ◌++◌, replicate, length, ap, ◌∙◌, take, drop,
  arith, length-replicate,
}
use cloud_service.Clients.{
  find_client_by_vpn_ip, find_client_by_addr, add_client, add_new_client, init_client_table,
}
use cloud_service.Slots.{find_slot}
use cloud_service.Server.Sessions.{answer_connect, handshake_split}
use cloud_service.Keys.{perform_handshake, get_server_public_key}
use cloud_service.Tests.Server.{alice_entry, alice_known, to_alice, alice_found}
use cloud_service.Protocol.{
  header_bytes, init_vpn_header, pkt_data, read_connect_request, read_header,
}
use cloud_service.Enclave.{Enclave}
use cloud_service.EnclaveClient.{enclave_handshake}
use cloud_service.Crypto.{crypto_ecdh}
use cloud_service.EnclaveClient.Calls.{
  with_public_key, next_id, enclave_handshake_lem, enclave_ping_lem,
}
use cloud_service.EnclaveClient.Peer.{enclave_exchange, link_to}
use cloud_service.Server.{
  Server, udp_sent, handle_tun_to_udp, Loop, readable, event_loop_round, handle_udp_to_tun,
  on_packet, on_connect_req,
}
use cloud_service.Server.Joint.Reached.{turn_result-returns, handle_tun_to_udp-Reach}
use cloud_service.Server.Joint.Rounds.{
  Turn, IsOrdinary, Reach, start, turn, turn_result, first_loop, asked,
}
use cloud_service.Server.Joint.Packets.{connects}
use cloud_service.Enclave.Reference.{unseal}
use cloud_service.Server.Joint.State.{Joint}
use cloud_service.Server.Joint.Start.{first_server}
use cloud_service.Server.Program.{Running, start_server}
use cloud_service.System.Processes.{start_enclave_process}
use cloud_service.System.Sockets.{
  enclave_connect, create_tun_interface, configure_tun_ip, bring_tun_up, create_udp_server,
}
use cloud_service.Tests.Program.{system, all_well}
use cloud_service.Tests.Toy.{
  toy, no_keys, nonce, buffer, server_key, idle, idle-Ready, client_key, ip, alice, moment,
  with_alice, toy-AeadLaws, toy-ExchangeLaws,
}
use cloud_service.Wire.{load32, htonl, Bytes, Run, done, fault}

abbrev peer : Run Enclave → Bytes → Option (Run Enclave × Bytes)
peer = enclave_exchange toy nonce buffer

abbrev booted : Running (Run Enclave)
booted = record {
  enclave_pid = 100;
  enclave_fd = 3;
  tun_fd = 4;
  udp_fd = 5;
  server = first_server (link_to idle 1);
}

boots :
    start_server peer all_well (done idle) system
    ≡ ((start_server peer all_well (done idle) system).0, some booted)
unfolding start_server start_enclave_process enclave_connect create_tun_interface configure_tun_ip
    bring_tun_up create_udp_server
boots = rw (enclave_ping_lem idle-Ready 0, start_server) refl

at_start : Reach toy 0 (first_loop booted.server 0)
at_start =
    start server_key server_key nonce buffer all_well system 0 refl refl
      (length-replicate {A = ℕ} 4096 0) boots

abbrev blank : Bytes
blank = replicate 2048 0

-- alice's CONNECT_REQ, with her public key as the token
abbrev request : Bytes
request = 1 ∷ (replicate 47 0 ++ client_key)

abbrev hello : Turn
hello = record {
  moment = moment;
  stale = blank;
  nonce = nonce;
  buffer = buffer;
  activity = readable (some (some (request, alice))) none;
}

hello-IsOrdinary : IsOrdinary hello
hello-IsOrdinary = record {
  stale_size = length-replicate {A = ℕ} 2048 0;
  nonce_size = refl;
  enclave_buffer_size = length-replicate {A = ℕ} 4096 0;
  tun = tt;
}

turn_result-returns_example :
    (l : Loop (Run Enclave)) × (turn_result toy (first_loop booted.server 0) hello ≡ done l)
turn_result-returns_example =
    turn_result-returns toy-AeadLaws toy-ExchangeLaws hello at_start hello-IsOrdinary

abbrev loop_of : Run (Loop (Run Enclave)) → Loop (Run Enclave)
loop_of fault = first_loop booted.server 0
loop_of (done l) = l

done-loop_of :
    (r : Run (Loop (Run Enclave))) → (l : Loop (Run Enclave)) × (r ≡ done l) → r ≡ done (loop_of r)
done-loop_of r (l, e) = rw e refl

abbrev greeted : Loop (Run Enclave)
greeted = loop_of (turn_result toy (first_loop booted.server 0) hello)

at_greeting : Reach toy (0 + asked hello) greeted
at_greeting = turn hello at_start refl hello-IsOrdinary (
    done-loop_of _
      (turn_result-returns toy-AeadLaws toy-ExchangeLaws hello at_start hello-IsOrdinary))

abbrev heard : Bytes
heard = take 2048 request ++ drop (length (take 2048 request)) blank

shaken_hands :
    on_connect_req peer moment booted.server heard alice
    ≡ answer_connect peer moment booted.server
        (with_alice, ip)
        (0, alice_entry)
        (
          link_to
              (record idle { manager = (perform_handshake toy no_keys ip client_key).0 })
              (next_id 1),
          with_public_key
              (get_server_public_key no_keys)
              (perform_handshake toy no_keys ip client_key).1,
        )
        alice
unfolding on_connect_req add_client find_client_by_addr add_new_client init_client_table find_slot
    read_connect_request htonl
shaken_hands =
    handshake_split peer moment booted.server alice ip 0 alice_entry with_alice
      (enclave_handshake peer booted.server.link ip client_key) alice_known
    ∙ ap (λ r. answer_connect peer moment booted.server (with_alice, ip) (0, alice_entry) r alice)
        (enclave_handshake_lem idle-Ready 1 ip client_key (omega arith) refl)

greeted_table : greeted.server.table ≡ with_alice
unfolding event_loop_round handle_udp_to_tun on_packet read_header perform_handshake add_client
    crypto_ecdh
greeted_table = rw shaken_hands refl

alice_reached :
    find_client_by_vpn_ip greeted.server.table (load32 to_alice 16) ≡ some (0, alice_entry)
alice_reached = ap (λ t. find_client_by_vpn_ip t (load32 to_alice 16)) greeted_table ∙ alice_found

asked_once : asked hello ≡ 1
unfolding connects read_header
asked_once = refl

handle_tun_to_udp-Reach_example :
    (e : Enclave) × (sealed : Bytes) × (v : Server (Run Enclave)) × (greeted.server.link.peer
      ≡ done e)
    × (handle_tun_to_udp peer moment greeted.server (some to_alice)
        ≡ done (
          v,
          udp_sent
                (header_bytes (init_vpn_header moment.clock greeted.server.sequence pkt_data 48).0
                  ++ sealed)
                alice_entry.real_addr
              ∷ [],
        ))
    × (unseal toy e.manager alice_entry.vpn_ip sealed ≡ some to_alice)
handle_tun_to_udp-Reach_example =
    handle_tun_to_udp-Reach toy-AeadLaws toy-ExchangeLaws moment nonce buffer to_alice 0 alice_entry
      at_greeting (omega (arith, asked_once)) refl (length-replicate {A = ℕ} 4096 0) (omega arith)
      (omega arith) (omega arith) alice_reached
