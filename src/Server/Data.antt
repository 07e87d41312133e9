-- ===== src/Server/Data.antt =====
-- The two directions of traffic in vpn_server.c, with the enclave at the end of the link.
use cloud_service.Base.{
  ℕ, ◌+◌, ◌%◌, ◌/◌, ◌^◌, ◌<◌, ◌≤◌, ◌≡◌, ◌≢◌, refl, ap, ◌∙◌, false, Option, none, some, List, [],
  ◌∷◌, ◌++◌, length, arith, if◌then◌else◌, take, drop, take_all, take-append, drop-append, le→ltb,
  lt→ltb, length-append, ◌==◌, get_or,
}
use mathlib.Core.List.{append_assoc}
use cloud_service.Clients.{
  SockAddr, ClientEntry, find_client_by_addr, find_client_by_vpn_ip, update_client_activity,
}
use cloud_service.Crypto.{Sodium}
use cloud_service.Enclave.{Enclave}
use cloud_service.Enclave.Reference.{seal, unseal}
use cloud_service.EnclaveClient.Calls.{
  enclave_decrypt_lem, enclave_encrypt_lem, next_id, size-unseal,
}
use cloud_service.EnclaveClient.Peer.{enclave_exchange, Ready, link_to}
use cloud_service.EnclaveClient.Replies.{size_of}
use cloud_service.Protocol.{
  VpnHeader, header_bytes, read_header, pkt_data, header_size, init_vpn_header,
}
use cloud_service.Server.{
  Server, Moment, Output, udp_sent, tun_written, on_packet, on_data, handle_udp_to_tun,
  handle_tun_to_udp, send_data, write_plaintext, buffer_size,
}
use cloud_service.Enclave.Serve.{unseal-seal}
use cloud_service.Keys.{get_key}
use cloud_service.Protocol.RoundTrip.{HeaderFits, read_header-header_bytes}
use cloud_service.Wire.{Bytes, Run, fault, done, load32}

-- what a decrypted packet makes the server write
abbrev pub written : Option Bytes → List Output
written none = []
written (some text) = tun_written text ∷ []

write_plaintext_lem :
    {P : Type 0} (exchange : P → Bytes → Option (P × Bytes)) (m : Moment) (v : Server P)
    (text : Option Bytes)
    → size_of text ≤ buffer_size
    → write_plaintext exchange m v text ≡ done (v, written text)
write_plaintext_lem exchange m v none h = refl
write_plaintext_lem exchange m v (some text) h = rw (le→ltb buffer_size (length text) h) refl

pub length-header_bytes : (h : VpnHeader) → length (header_bytes h) ≡ header_size
unfolding header_bytes
length-header_bytes h = refl

-- A datagram that begins with a header and fits the buffer reaches the `switch` whole.
pub handle_udp_to_tun_packet :
    {P : Type 0} (exchange : P → Bytes → Option (P × Bytes)) (m : Moment) (v : Server P)
    (stale : Bytes) (h : VpnHeader) (body : Bytes) (addr : SockAddr)
    → header_size + length body ≤ buffer_size
    → handle_udp_to_tun exchange m v stale (some (header_bytes h ++ body, addr))
      ≡ on_packet exchange m v
          ((header_bytes h ++ body) ++ drop (header_size + length body) stale)
          (header_size + length body)
          addr
unfolding handle_udp_to_tun
handle_udp_to_tun_packet exchange m v stale h body addr small =
    let n : length (header_bytes h ++ body) ≡ header_size + length body =
      omega (arith, length-append (header_bytes h) body, length-header_bytes h) in
    rw
      (
        take_all buffer_size (header_bytes h ++ body) (omega (arith, n)),
        n,
        le→ltb (header_size + length body) header_size (omega arith),
      )
      refl

pub read_type :
    (h : VpnHeader) (body rest : Bytes)
    → HeaderFits h
    → (read_header ((header_bytes h ++ body) ++ rest)).type ≡ h.type
read_type h body rest f =
    ap (λ b. (read_header b).type) (append_assoc (header_bytes h) body rest)
    ∙ ap (λ r. VpnHeader.type r) (read_header-header_bytes h (body ++ rest) f)

body_of :
    (h : VpnHeader) (body rest : Bytes)
    → drop header_size (take (header_size + length body) ((header_bytes h ++ body) ++ rest)) ≡ body
body_of h body rest =
    ap (λ b. drop header_size b)
      (take-append (header_size + length body) (header_bytes h ++ body) rest
        (omega (arith, length-append (header_bytes h) body, length-header_bytes h)))
    ∙ drop-append header_size (header_bytes h) body (length-header_bytes h)

module _ {s : Sodium} {public_of : Bytes → Bytes} {nonce buffer : Bytes} {e : Enclave}
    (w : Ready s public_of nonce buffer e) (m : Moment) where
  pub on_data_lem :
      (v : Server (Run Enclave)) (addr : SockAddr) (id i : ℕ) (client : ClientEntry)
      (sealed : Bytes)
      → v.link ≡ link_to e id
      → find_client_by_addr v.table addr ≡ some (i, client)
      → client.vpn_ip < 2 ^ 32
      → length sealed ≤ buffer_size
      → on_data (enclave_exchange s nonce buffer) m v sealed addr
        ≡ done (
          record v {
            table = update_client_activity v.table (i, client) m.now;
            link = link_to e (next_id id);
          },
          written (unseal s e.manager client.vpn_ip sealed),
        )
  unfolding on_data
  on_data_lem v addr id i client sealed linked known ip small =
      rw (known, on_data, linked, enclave_decrypt_lem w id client.vpn_ip sealed ip (omega arith))
        (write_plaintext_lem (enclave_exchange s nonce buffer) m _
          (unseal s e.manager client.vpn_ip sealed)
          (omega (arith, size-unseal w client.vpn_ip sealed)))

  -- With an enclave that waits for requests, a DATA packet of at most 2032 bytes of ciphertext from
  -- an address with a session renews the session's time, and what the enclave unseals with the
  -- session's key, or nothing if it rejects it, is written to the TUN interface.
  pub handle_udp_to_tun_data :
      (v : Server (Run Enclave)) (stale : Bytes) (addr : SockAddr) (id i : ℕ) (client : ClientEntry)
      (h : VpnHeader) (sealed : Bytes)
      → v.link ≡ link_to e id
      → find_client_by_addr v.table addr ≡ some (i, client)
      → client.vpn_ip < 2 ^ 32
      → HeaderFits h
      → h.type ≡ pkt_data
      → header_size + length sealed ≤ buffer_size
      → handle_udp_to_tun
          (enclave_exchange s nonce buffer)
          m
          v
          stale
          (some (header_bytes h ++ sealed, addr))
        ≡ done (
          record v {
            table = update_client_activity v.table (i, client) m.now;
            link = link_to e (next_id id);
          },
          written (unseal s e.manager client.vpn_ip sealed),
        )
  unfolding on_packet
  handle_udp_to_tun_data v stale addr id i client h sealed linked known ip f is_data small =
      let rest = drop (header_size + length sealed) stale in
      rw
        (
          handle_udp_to_tun_packet (enclave_exchange s nonce buffer) m v stale h sealed addr small,
          read_type h sealed rest f ∙ is_data,
          body_of h sealed rest,
        )
        (on_data_lem v addr id i client sealed linked known ip (omega arith))

  tun_client :
      (v : Server (Run Enclave)) (packet sealed : Bytes) (id i : ℕ) (client : ClientEntry)
      → v.link ≡ link_to e id
      → 20 ≤ length packet
      → length packet ≤ buffer_size
      → get_or packet 0 0 / 16 ≢ 6
      → find_client_by_vpn_ip v.table (load32 packet 16) ≡ some (i, client)
      → client.vpn_ip < 2 ^ 32
      → seal s nonce e.manager client.vpn_ip packet ≡ some sealed
      → handle_tun_to_udp (enclave_exchange s nonce buffer) m v (some packet)
        ≡ send_data
            (enclave_exchange s nonce buffer)
            m
            (record v { link = link_to e (next_id id) })
            (i, client)
            (some sealed)
  unfolding handle_tun_to_udp
  tun_client v packet sealed id i client linked long small v4 known ip text =
      let other : (get_or packet 0 0 / 16 == 6) ≡ false = ground (arith, v4) in
      rw
        (
          take_all buffer_size packet small,
          le→ltb (length packet) 20 long,
          other,
          known,
          handle_tun_to_udp,
          take_all buffer_size packet small,
          linked,
          enclave_encrypt_lem w id client.vpn_ip packet ip (omega arith),
          text,
        )
        refl

  -- With an enclave that waits for requests, an IPv4 packet of 20 to 2004 bytes for a client that
  -- has a key leaves as one UDP datagram to the client's real address, a DATA header and a
  -- ciphertext 28 bytes longer than the packet, which the same key unseals to the packet; the
  -- client's time is renewed if the datagram is sent.
  pub handle_tun_to_udp_sealed :
      (v : Server (Run Enclave)) (packet : Bytes) (id i : ℕ) (client : ClientEntry)
      → v.link ≡ link_to e id
      → 20 ≤ length packet
      → length packet ≤ 2004
      → get_or packet 0 0 / 16 ≢ 6
      → find_client_by_vpn_ip v.table (load32 packet 16) ≡ some (i, client)
      → client.vpn_ip < 2 ^ 32
      → get_key e.manager client.vpn_ip ≢ none
      → (sealed : Bytes) × (handle_tun_to_udp (enclave_exchange s nonce buffer) m v (some packet)
          ≡ done (
            record {
              table = if m.sends then update_client_activity v.table (i, client) m.now else v.table;
              link = link_to e (next_id id);
              sequence = (v.sequence + 1) % 2 ^ 32;
            },
            udp_sent
                  (header_bytes (init_vpn_header m.clock v.sequence pkt_data (length packet + 28)).0
                    ++ sealed)
                  client.real_addr
                ∷ [],
          ))
        × (unseal s e.manager client.vpn_ip sealed ≡ some packet)
        × (length sealed ≡ length packet + 28)
  unfolding send_data init_vpn_header
  handle_tun_to_udp_sealed v packet id i client linked long small v4 known ip key =
      let (sealed, made, back, n) =
        unseal-seal e.manager client.vpn_ip nonce packet w.aead w.nonce_size key in
      (
        sealed,
        rw
            (
              tun_client v packet sealed id i client linked long (omega arith) v4 known ip made,
              n,
              le→ltb buffer_size (header_size + (length packet + 28)) (omega arith),
            )
            refl,
        back,
        n,
      )

  -- With an enclave that waits for requests and has a key for the client, an IPv4 packet of 2005 to
  -- 2048 bytes gives a ciphertext that with its header is larger than `packet_buffer`, and the
  -- handler writes past it.
  pub handle_tun_to_udp_overflow :
      (v : Server (Run Enclave)) (packet : Bytes) (id i : ℕ) (client : ClientEntry)
      → v.link ≡ link_to e id
      → 2004 < length packet
      → length packet ≤ buffer_size
      → get_or packet 0 0 / 16 ≢ 6
      → find_client_by_vpn_ip v.table (load32 packet 16) ≡ some (i, client)
      → client.vpn_ip < 2 ^ 32
      → get_key e.manager client.vpn_ip ≢ none
      → handle_tun_to_udp (enclave_exchange s nonce buffer) m v (some packet) ≡ fault
  unfolding send_data
  handle_tun_to_udp_overflow v packet id i client linked long small v4 known ip key =
      let (sealed, made, back, n) =
        unseal-seal e.manager client.vpn_ip nonce packet w.aead w.nonce_size key in
      rw
        (
          tun_client v packet sealed id i client linked (omega arith) small v4 known ip made,
          n,
          lt→ltb buffer_size (header_size + (length packet + 28)) (omega arith),
        )
        refl
