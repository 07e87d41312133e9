-- ===== src/Tests/VpnClient.antt =====
-- The theorems of the client at concrete packets.
use cloud_service.Base.{◌+◌, ◌%◌, ◌^◌, ◌≡◌, refl, arith, [], ◌∷◌, ◌++◌, true, some, replicate}
use cloud_service.Clients.{init_client_table, update_client_activity}
use cloud_service.Crypto.{crypto_ecdh, crypto_derive_session_key}
use cloud_service.Enclave.{Enclave}
use cloud_service.EnclaveClient.Calls.{next_id}
use cloud_service.EnclaveClient.Peer.{link_to}
use cloud_service.Keys.{init_key_manager, add_key, get_key, perform_handshake}
use cloud_service.Protocol.{
  ConnectResponse, connect_response_bytes, init_vpn_header, pkt_connect_resp,
}
use cloud_service.Protocol.RoundTrip.{init_vpn_header-HeaderFits}
use cloud_service.Server.{Server, tun_written, udp_sent}
use cloud_service.Server
use cloud_service.Slots.{find_slot}
use cloud_service.Tests.Server.{
  peer, server, alice_entry, alice_known, alice_ip_fits, alice_found, to_alice,
}
use cloud_service.Tests.Toy.{
  toy, toy-ExchangeLaws, nonce, ip, keyed, one_key, no_keys, keyed-Ready, client_key, server_key,
  alice, moment, with_alice,
}
use cloud_service.VpnClient.{VpnClient, accept_response, handle_tun_to_udp, handle_udp_to_tun}
use cloud_service.VpnClient.Agreement.{accept_response-perform_handshake}
use cloud_service.VpnClient.EndToEnd.{client_to_server, server_to_client}
use cloud_service.Wire.{Bytes, Run, done, htonl}

abbrev client : VpnClient
client = record {
  client_private_key = client_key;
  client_public_key = client_key;
  server_public_key = server_key;
  session_key = client_key;
  vpn_ip = ip;
  session_id = 5;
  connected = true;
  last_ping_sent = 90;
  last_pong_received = 90;
  reconnect_attempts = 0;
  backoff_seconds = 1;
  sequence = 3;
}

abbrev pub response : ConnectResponse
response = record {
  header = (init_vpn_header moment.clock 0 pkt_connect_resp 41).0;
  status = 0;
  vpn_ip = ip;
  session_id = 77;
  server_public_key = server_key;
}

shared_key :
    (perform_handshake toy no_keys ip client_key).1
    ≡ some (crypto_derive_session_key toy (replicate 32 8) [])
unfolding perform_handshake crypto_ecdh init_key_manager
shared_key = refl

response_type : response.header.type ≡ pkt_connect_resp
unfolding init_vpn_header
response_type = refl

alice_key : get_key one_key alice_entry.vpn_ip ≡ some client.session_key
unfolding get_key add_key init_key_manager find_slot init_client_table htonl
alice_key = refl

client_to_server_example :
    (datagram : Bytes) × (handle_tun_to_udp toy client moment.clock nonce (some to_alice)
      ≡ done (record client { sequence = (3 + 1) % 2 ^ 32 }, some datagram))
    × (Server.handle_udp_to_tun peer moment server [] (some (datagram, alice))
        ≡ done (
          record server {
            table = update_client_activity with_alice (0, alice_entry) 100;
            link = link_to keyed (next_id 4);
          },
          tun_written to_alice ∷ [],
        ))
client_to_server_example =
    client_to_server keyed-Ready moment client moment.clock nonce to_alice [] server alice 4 0
      alice_entry refl (omega arith) refl alice_known alice_ip_fits alice_key

server_to_client_example :
    (v' : Server (Run Enclave)) × (datagram : Bytes) × (Server.handle_tun_to_udp peer moment server
        (some to_alice)
      ≡ done (v', udp_sent datagram alice_entry.real_addr ∷ []))
    × (handle_udp_to_tun toy client 200 (some datagram) ≡ done (client, some to_alice))
server_to_client_example =
    server_to_client keyed-Ready moment client 200 server to_alice 4 0 alice_entry refl
      (omega arith) (omega arith) (omega arith) alice_found alice_ip_fits alice_key

accept_response-perform_handshake_example :
    let result = accept_response toy client (connect_response_bytes response ++ []) 100 in
    (result.1 ≡ true)
    × (result.0.session_key ≡ crypto_derive_session_key toy (replicate 32 8) [])
    × (result.0.vpn_ip ≡ ip)
    × (result.0.session_id ≡ htonl 77)
unfolding init_key_manager
accept_response-perform_handshake_example =
    accept_response-perform_handshake no_keys client response ip 100 []
      (crypto_derive_session_key toy (replicate 32 8) []) toy-ExchangeLaws refl refl shared_key
      (init_vpn_header-HeaderFits moment.clock 0 pkt_connect_resp 41) response_type refl
      (omega arith) (omega arith) refl refl
