-- ===== src/VpnClient/EndToEnd.antt =====
-- Packets from one TUN interface to the other: the client at one end, the server and its enclave at
-- the other, with one session key.
use cloud_service.Base.{
  ℕ, ◌+◌, ◌-◌, ◌%◌, ◌/◌, ◌^◌, ◌<◌, ◌≤◌, ◌≡◌, ◌≢◌, refl, ap, ◌∙◌, some, inl, inr, [], ◌∷◌, ◌++◌,
  length, arith, take, drop, take_all, take-append, drop-append, length-append, length-drop, le→ltb,
  Option-cases, get_or,
}
use cloud_service.Clients.{
  SockAddr, ClientEntry, find_client_by_addr, find_client_by_vpn_ip, update_client_activity,
}
use cloud_service.Crypto.{Sodium, AeadLaws, crypto_encrypt, crypto_decrypt}
use cloud_service.Enclave.{Enclave}
use cloud_service.Enclave.Reference.{unseal}
use cloud_service.EnclaveClient.Calls.{next_id}
use cloud_service.EnclaveClient.Peer.{enclave_exchange, Ready, link_to}
use cloud_service.Keys.{KeyManager, get_key}
use cloud_service.Protocol.{
  VpnHeader, Timeval, header_size, header_bytes, read_header, init_vpn_header, pkt_data,
}
use cloud_service.Protocol.RoundTrip.{
  HeaderFits, init_vpn_header-HeaderFits, read_header-header_bytes,
}
use cloud_service.Server.{Server, Moment, Output, tun_written, udp_sent}
use cloud_service.Server.Data.{
  handle_udp_to_tun_data, handle_tun_to_udp_sealed, written, length-header_bytes,
}
use cloud_service.Server
use cloud_service.VpnClient.{VpnClient, handle_tun_to_udp, handle_udp_to_tun, on_data, packet_size}
use cloud_service.Wire.{Bytes, Run, done, load32}

module _ {s : Sodium} (laws : AeadLaws s) (c : VpnClient) where
  -- What the client sends is sealed with its session key.
  client_sealed :
      (clock : Timeval) (nonce packet : Bytes) (km : KeyManager) (ip : ℕ)
      → length nonce ≡ 12
      → length packet ≤ 2004
      → get_key km ip ≡ some c.session_key
      → (sealed : Bytes) × (handle_tun_to_udp s c clock nonce (some packet)
          ≡ done (
            record c { sequence = (c.sequence + 1) % 2 ^ 32 },
            some (
                header_bytes (init_vpn_header clock c.sequence pkt_data (length packet + 28)).0
                ++ sealed),
          ))
        × (unseal s km ip sealed ≡ some packet)
        × (length sealed ≡ length packet + 28)
  unfolding handle_tun_to_udp unseal crypto_encrypt init_vpn_header
  client_sealed clock nonce packet km ip n small key =
      elim (Option-cases (s.aead_encrypt c.session_key nonce packet)) [
        | inl failed ↦ absurd (laws.encrypt_succeeds c.session_key nonce packet failed)
        | inr (e, sealed) ↦
            let size = laws.encrypt_length c.session_key nonce packet e sealed in
            let total : length (nonce ++ e) ≡ length packet + 28 =
              omega (arith, length-append nonce e, n, size) in
            let count : 12 + (length packet + 16) ≡ length packet + 28 = omega arith in
            (
              nonce ++ e,
              rw
                  (
                    take_all packet_size packet (omega arith),
                    sealed,
                    handle_tun_to_udp,
                    take_all packet_size packet (omega arith),
                    count,
                    le→ltb packet_size (12 + length e) (omega (arith, size)),
                    le→ltb packet_size (header_size + (length packet + 28)) (omega arith),
                    take_all (length packet + 28) (nonce ++ e) (omega (arith, total)),
                  )
                  refl,
              rw
                  (
                    key,
                    unseal,
                    le→ltb (length (nonce ++ e)) 28 (omega (arith, total)),
                    take-append 12 nonce e n,
                    drop-append 12 nonce e n,
                  )
                  (laws.decrypt_encrypt c.session_key nonce packet e sealed),
              total,
            )
      ]

  -- What the enclave would unseal with the client's key, the client opens.
  client_opens :
      (km : KeyManager) (ip : ℕ) (sealed packet : Bytes)
      → get_key km ip ≡ some c.session_key
      → unseal s km ip sealed ≡ some packet
      → length sealed ≡ length packet + 28
      → length packet ≤ packet_size
      → on_data s c sealed ≡ done (c, some packet)
  unfolding on_data unseal crypto_decrypt
  client_opens km ip sealed packet key opened n small =
      let plain : s.aead_decrypt c.session_key (take 12 sealed) (drop 12 sealed) ≡ some packet =
        rw (key, unseal, le→ltb (length sealed) 28 (omega (arith, n))) at opened in
      rw
        (
          le→ltb (length sealed) 12 (omega (arith, n)),
          plain,
          on_data,
          le→ltb packet_size (length packet) small,
          take_all (length (drop 12 sealed) - 16) packet (omega (arith, length-drop 12 sealed, n)),
        )
        refl

module _ {s : Sodium} {public_of : Bytes → Bytes} {nonce buffer : Bytes} {e : Enclave}
    (w : Ready s public_of nonce buffer e) (m : Moment) where
  -- With an enclave that waits for requests and holds the client's session key for the address of
  -- the client's session: a packet of at most 2004 bytes that the client takes from its TUN
  -- interface is, once the server has its datagram from the client's address, written to the
  -- server's TUN interface as it was.
  pub client_to_server :
      (c : VpnClient) (clock : Timeval) (own_nonce packet stale : Bytes) (v : Server (Run Enclave))
      (addr : SockAddr) (id i : ℕ) (entry : ClientEntry)
      → length own_nonce ≡ 12
      → length packet ≤ 2004
      → v.link ≡ link_to e id
      → find_client_by_addr v.table addr ≡ some (i, entry)
      → entry.vpn_ip < 2 ^ 32
      → get_key e.manager entry.vpn_ip ≡ some c.session_key
      → (datagram : Bytes) × (handle_tun_to_udp s c clock own_nonce (some packet)
          ≡ done (record c { sequence = (c.sequence + 1) % 2 ^ 32 }, some datagram))
        × (Server.handle_udp_to_tun
              (enclave_exchange s nonce buffer)
              m
              v
              stale
              (some (datagram, addr))
            ≡ done (
              record v {
                table = update_client_activity v.table (i, entry) m.now;
                link = link_to e (next_id id);
              },
              tun_written packet ∷ [],
            ))
  unfolding init_vpn_header
  client_to_server c clock own_nonce packet stale v addr id i entry n small linked known ip key =
      let (sealed, sent, opened, size) =
        client_sealed w.aead c clock own_nonce packet e.manager entry.vpn_ip n small key in
      let h = (init_vpn_header clock c.sequence pkt_data (length packet + 28)).0 in
      (
        header_bytes h ++ sealed,
        sent,
        handle_udp_to_tun_data w m v stale addr id i entry h sealed linked known ip
              (init_vpn_header-HeaderFits clock c.sequence pkt_data (length packet + 28))
              (omega arith) (omega (arith, size))
            ∙ ap
                (λ o. done (
                  record v {
                    table = update_client_activity v.table (i, entry) m.now;
                    link = link_to e (next_id id);
                  },
                  written o,
                ))
                opened,
      )

  client_receives :
      (c : VpnClient) (now : ℕ) (h : VpnHeader) (sealed packet : Bytes) (ip : ℕ)
      → HeaderFits h
      → h.type ≡ pkt_data
      → get_key e.manager ip ≡ some c.session_key
      → unseal s e.manager ip sealed ≡ some packet
      → length sealed ≡ length packet + 28
      → length packet ≤ 2004
      → handle_udp_to_tun s c now (some (header_bytes h ++ sealed)) ≡ done (c, some packet)
  unfolding handle_udp_to_tun
  client_receives c now h sealed packet ip f is_data key opened n small =
      let total : length (header_bytes h ++ sealed) ≡ 16 + length sealed =
        omega (arith, length-append (header_bytes h) sealed, length-header_bytes h) in
      let type : (read_header (header_bytes h ++ sealed)).type ≡ pkt_data =
        ap (λ r. VpnHeader.type r) (read_header-header_bytes h sealed f) ∙ is_data in
      rw
        (
          take_all packet_size (header_bytes h ++ sealed) (omega (arith, total, n)),
          total,
          le→ltb (16 + length sealed) 16 (omega arith),
          type,
          drop-append 16 (header_bytes h) sealed (length-header_bytes h),
        )
        (client_opens w.aead c e.manager ip sealed packet key opened n (omega arith))

  -- With an enclave that waits for requests: an IPv4 packet of 20 to 2004 bytes from the server's
  -- TUN interface for a client's VPN address goes to the client's real address in one datagram, and
  -- the client, if it holds the session key that the enclave has for the address, writes the packet
  -- to its own TUN interface as it was.
  pub server_to_client :
      (c : VpnClient) (now : ℕ) (v : Server (Run Enclave)) (packet : Bytes) (id i : ℕ)
      (entry : ClientEntry)
      → v.link ≡ link_to e id
      → 20 ≤ length packet
      → length packet ≤ 2004
      → get_or packet 0 0 / 16 ≢ 6
      → find_client_by_vpn_ip v.table (load32 packet 16) ≡ some (i, entry)
      → entry.vpn_ip < 2 ^ 32
      → get_key e.manager entry.vpn_ip ≡ some c.session_key
      → (v' : Server (Run Enclave)) × (datagram : Bytes) × (Server.handle_tun_to_udp
            (enclave_exchange s nonce buffer)
            m
            v
            (some packet)
          ≡ done (v', udp_sent datagram entry.real_addr ∷ []))
        × (handle_udp_to_tun s c now (some datagram) ≡ done (c, some packet))
  unfolding init_vpn_header
  server_to_client c now v packet id i entry linked long small v4 known ip key =
      let (sealed, sent, opened, n) =
        handle_tun_to_udp_sealed w m v packet id i entry linked long small v4 known ip
          (λ h. absurd (cc (h, key))) in
      let h = (init_vpn_header m.clock v.sequence pkt_data (length packet + 28)).0 in
      (
        _,
        header_bytes h ++ sealed,
        sent,
        client_receives c now h sealed packet entry.vpn_ip
            (init_vpn_header-HeaderFits m.clock v.sequence pkt_data (length packet + 28))
            (omega arith) key opened n small,
      )
