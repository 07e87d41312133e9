-- ===== src/TestPrograms/UdpClient/Server.antt =====
-- udp_test_client.c against the server of vpn_server.c and its enclave.
use cloud_service.Base.{
  ℕ, ◌+◌, ◌<◌, ◌≤◌, ◌≡◌, refl, ap, ◌∙◌, none, some, inl, inr, [], ◌++◌, length, arith, drop, lt→ltb,
  Option-cases,
}
use cloud_service.Clients.{SockAddr, find_client_by_addr, update_client_activity}
use cloud_service.Clients.Invariant.{IsValid}
use cloud_service.Crypto.{Sodium}
use cloud_service.Enclave.{Enclave}
use cloud_service.Enclave.Reference.{unseal}
use cloud_service.EnclaveClient.Calls.{next_id}
use cloud_service.EnclaveClient.Peer.{enclave_exchange, Ready, link_to}
use cloud_service.Keys.{KeyManager, get_key}
use cloud_service.Protocol.{VpnHeader, pkt_data, header_size, header_bytes, init_vpn_header}
use cloud_service.Protocol.RoundTrip.{HeaderFits, init_vpn_header-HeaderFits}
use cloud_service.Server.{Server, Moment, handle_udp_to_tun, on_packet, on_data, buffer_size}
use cloud_service.Server.Data.{handle_udp_to_tun_packet, handle_udp_to_tun_data, read_type, written}
use cloud_service.Server.Sessions.{pool_ip}
use cloud_service.TestPrograms.UdpClient.{Inputs, fake_icmp, data_packet}
use cloud_service.Wire.{Bytes, Run, done}

-- Fewer than 28 bytes are no ciphertext under any key.
unseal_short :
    (s : Sodium) (km : KeyManager) (ip : ℕ) (sealed : Bytes)
    → length sealed < 28
    → unseal s km ip sealed ≡ none
unfolding unseal
unseal_short s km ip sealed h = elim (Option-cases (get_key km ip)) [
  | inl unknown ↦ rw (unknown, unseal) refl
  | inr (key, known) ↦ rw (known, unseal, lt→ltb (length sealed) 28 h) refl
]

module _ {s : Sodium} {public_of : Bytes → Bytes} {nonce buffer : Bytes} {e : Enclave}
    (w : Ready s public_of nonce buffer e) (m : Moment) where
  data_stranger :
      (v : Server (Run Enclave)) (stale : Bytes) (addr : SockAddr) (h : VpnHeader) (body : Bytes)
      → find_client_by_addr v.table addr ≡ none
      → HeaderFits h
      → h.type ≡ pkt_data
      → header_size + length body ≤ buffer_size
      → handle_udp_to_tun
          (enclave_exchange s nonce buffer)
          m
          v
          stale
          (some (header_bytes h ++ body, addr))
        ≡ done (v, [])
  unfolding on_packet on_data
  data_stranger v stale addr h body stranger f is_data small =
      rw
        (
          handle_udp_to_tun_packet (enclave_exchange s nonce buffer) m v stale h body addr small,
          read_type h body (drop (header_size + length body) stale) f ∙ is_data,
          stranger,
          on_data,
        )
        refl

  -- With an enclave that waits for requests, the server writes nothing to the TUN interface for a
  -- DATA packet of fewer than 28 bytes, from a client or from a stranger: no such packet is a
  -- ciphertext.
  pub handle_udp_to_tun_short :
      (v : Server (Run Enclave)) (stale : Bytes) (addr : SockAddr) (id : ℕ) (h : VpnHeader)
      (body : Bytes)
      → IsValid v.table
      → v.link ≡ link_to e id
      → HeaderFits h
      → h.type ≡ pkt_data
      → length body < 28
      → (v' : Server (Run Enclave)) × (handle_udp_to_tun
            (enclave_exchange s nonce buffer)
            m
            v
            stale
            (some (header_bytes h ++ body, addr))
          ≡ done (v', []))
  handle_udp_to_tun_short v stale addr id h body valid linked f is_data short =
      elim (Option-cases (find_client_by_addr v.table addr)) [
        | inl stranger ↦ (v, data_stranger v stale addr h body stranger f is_data (omega arith))
        | inr ((i, client), known) ↦
            let v' : Server (Run Enclave) = record v {
              table = update_client_activity v.table (i, client) m.now;
              link = link_to e (next_id id);
            } in
            (
              v',
              handle_udp_to_tun_data w m v stale addr id i client h body linked known
                    (pool_ip addr valid known).0 f is_data (omega arith)
                  ∙ ap (λ t. done (v', written t))
                      (unseal_short s e.manager client.vpn_ip body short),
            )
      ]

  -- The DATA packet of the test client, which is not encrypted, makes the server write nothing.
  pub data_packet-handle_udp_to_tun :
      (i : Inputs) (v : Server (Run Enclave)) (stale : Bytes) (addr : SockAddr) (id : ℕ)
      → IsValid v.table
      → v.link ≡ link_to e id
      → (v' : Server (Run Enclave)) × (handle_udp_to_tun
            (enclave_exchange s nonce buffer)
            m
            v
            stale
            (some (data_packet i, addr))
          ≡ done (v', []))
  unfolding data_packet init_vpn_header
  data_packet-handle_udp_to_tun i v stale addr id valid linked =
      handle_udp_to_tun_short v stale addr id (init_vpn_header i.data_clock 2 pkt_data 20).0
        fake_icmp valid linked (init_vpn_header-HeaderFits i.data_clock 2 pkt_data 20) refl
        (omega arith)
