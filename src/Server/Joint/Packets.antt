-- ===== src/Server/Joint/Packets.antt =====
-- Whole packets of both directions, as vpn_server.c handles them with its enclave.
use cloud_service.Base.{
  ℕ, ◌+◌, ◌/◌, ◌^◌, ◌<◌, ◌≤◌, ◌≡◌, refl, Option, none, some, inl, inr, ◌++◌, length, arith, take,
  drop, if◌then◌else◌, Bool-cases, Option-cases, ◌==◌, ltb, get_or, length-take, length-drop,
  length-append, le→ltb, if_holds, &&-eq-true, get_elem?, take_all,
}
use cloud_service.Clients.{
  SockAddr, ClientEntry, has_vpn_ip, find_client_by_vpn_ip, update_client_activity,
}
use cloud_service.Crypto.{Sodium, AeadLaws, ExchangeLaws}
use cloud_service.Enclave.{Enclave}
use cloud_service.Enclave.Reference.{seal}
use cloud_service.EnclaveClient.{enclave_encrypt}
use cloud_service.EnclaveClient.Calls.{next_id, enclave_encrypt_lem, size-seal}
use cloud_service.EnclaveClient.Peer.{enclave_exchange, link_to}
use cloud_service.EnclaveClient.Replies.{size_of}
use cloud_service.Ipc.{ipc_max_data_size}
use cloud_service.Protocol.{read_header, header_size, pkt_connect_req}
use cloud_service.Server.{
  Server, Moment, on_packet, handle_udp_to_tun, handle_tun_to_udp, send_data, buffer_size,
}
use cloud_service.Server.Cases.{on_packet_cases}
use cloud_service.Server.Joint.Handshake.{on_connect_req-Joint}
use cloud_service.Server.Joint.Handlers.{
  counted, renewed, on_data-Joint, on_ping-Joint, on_disconnect-Joint,
}
use cloud_service.Server.Joint.State.{Joint, Joint-mono, Safely-mono, Joint-Ready}
use cloud_service.Server.Safety.{Safely}
use cloud_service.Server.Sessions.{slot_ip}
use cloud_service.Slots.{find_slot, find_slot-get_elem?}
use cloud_service.Wire.{Bytes, Run, load32}

-- 1 for a packet whose header makes it a connection request, in the buffer that held `stale`
abbrev pub requests : Bytes → ℕ
requests buffer = if (read_header buffer).type == pkt_connect_req then 1 else 0

unfoldable pub connects : Bytes → Option (Bytes × SockAddr) → ℕ
connects stale none = 0
connects stale (some (datagram, addr)) =
    let got = take buffer_size datagram in
    if ltb (length got) header_size then 0 else requests (got ++ drop (length got) stale)

module _ {s : Sodium} {public_of : Bytes → Bytes} (aead : AeadLaws s)
    (laws : ExchangeLaws s public_of) (nonce buffer : Bytes) (hn : length nonce ≡ 12)
    (hb : length buffer ≡ ipc_max_data_size) (m : Moment) where
  on_packet-Joint :
      {n : ℕ} {v : Server (Run Enclave)} (b : Bytes) (count : ℕ) (addr : SockAddr)
      → Joint n v
      → length b ≡ buffer_size
      → Safely
          (Joint (n + requests b))
          (on_packet (enclave_exchange s nonce buffer) m v b count addr)
  on_packet-Joint {n} {v} b count addr j whole =
      on_packet_cases (enclave_exchange s nonce buffer) m (Safely (Joint (n + requests b))) v b
        count addr
        (λ yes. rw yes (on_connect_req-Joint aead laws nonce buffer hn hb m b addr j whole))
        (λ other.
          let le : n ≤ n + requests b = omega arith in
          (
            Safely-mono _ le (
                on_data-Joint aead laws nonce buffer hn hb m _ addr j (
                  omega
                    (arith, length-drop header_size (take count b), length-take count b, whole))),
            Safely-mono _ le (on_ping-Joint aead laws nonce buffer hn hb m addr j),
            Safely-mono _ le (on_disconnect-Joint aead laws nonce buffer hn hb m addr j),
            Joint-mono le j,
          ))

  -- Whatever arrives on the socket, from whomever.
  pub handle_udp_to_tun-Joint :
      {n : ℕ} {v : Server (Run Enclave)} (stale : Bytes) (received : Option (Bytes × SockAddr))
      → Joint n v
      → length stale ≡ buffer_size
      → Safely
          (Joint (n + connects stale received))
          (handle_udp_to_tun (enclave_exchange s nonce buffer) m v stale received)
  unfolding handle_udp_to_tun connects
  handle_udp_to_tun-Joint stale none j whole = Joint-mono (omega arith) j
  handle_udp_to_tun-Joint {n} {v} stale (some (datagram, addr)) j whole =
      let got = take buffer_size datagram in
      elim (Bool-cases (ltb (length got) header_size)) [
        | inl short ↦ rw short (Joint-mono (omega arith) j)
        | inr long ↦ rw long (
            on_packet-Joint (got ++ drop (length got) stale) (length got) addr j (
              omega (
                arith,
                length-append got (drop (length got) stale),
                length-drop (length got) stale,
                length-take buffer_size datagram,
                whole,
              )))
      ]

  sent :
      {n : ℕ} {v : Server (Run Enclave)} (i : ℕ) (client : ClientEntry) (sealed : Option Bytes)
      → Joint n v
      → get_elem? v.table.clients i ≡ some client
      → size_of sealed + header_size ≤ buffer_size
      → Safely (Joint n) (send_data (enclave_exchange s nonce buffer) m v (i, client) sealed)
  unfolding send_data
  sent i client none j g small = j
  sent {n} {v} i client (some sealed) j g small =
      let after : Joint n (record v {
        table = if m.sends then update_client_activity v.table (i, client) m.now else v.table;
      }) =
        if_holds (λ t. Joint n (record v { table = t })) m.sends (renewed j i client m.now g) j in
      rw (le→ltb buffer_size (header_size + length sealed) (omega (arith, small))) (record {
        enclave = after.enclave;
        id = after.id;
        linked = after.linked;
        table = after.table;
        keys = after.keys;
        running = after.running;
        keyed = after.keyed;
      })

  sealed_for :
      {n : ℕ} {v : Server (Run Enclave)} (j : Joint n v) (ip : ℕ) (packet : Bytes)
      → ip < 2 ^ 32
      → length packet ≤ 2004
      → enclave_encrypt (enclave_exchange s nonce buffer) v.link ip packet
        ≡ (link_to j.enclave (next_id j.id), seal s nonce j.enclave.manager ip packet)
  sealed_for j ip packet hi small =
      rw j.linked
        (enclave_encrypt_lem (Joint-Ready aead laws hn hb j) j.id ip packet hi (omega arith))

  -- Whatever packet of at most 2004 bytes comes from the TUN interface.
  pub handle_tun_to_udp-Joint :
      {n : ℕ} {v : Server (Run Enclave)} (packet : Option Bytes)
      → Joint n v
      → ((bytes : Bytes) → packet ≡ some bytes → length bytes ≤ 2004)
      → Safely (Joint n) (handle_tun_to_udp (enclave_exchange s nonce buffer) m v packet)
  unfolding handle_tun_to_udp find_client_by_vpn_ip
  handle_tun_to_udp-Joint none j small = j
  handle_tun_to_udp-Joint {n} {v} (some packet) j small =
      let fits : length packet ≤ 2004 = small packet refl in
      rw (take_all buffer_size packet (omega arith)) (
        if_holds (Safely (Joint n)) (ltb (length packet) 20) j (
          if_holds (Safely (Joint n)) (get_or packet 0 0 / 16 == 6) j
            (elim (Option-cases (find_slot (has_vpn_ip (load32 packet 16)) v.table.clients)) [
              | inl stranger ↦ rw (stranger, handle_tun_to_udp) j
              | inr ((i, client), known) ↦
                  let f =
                    find_slot-get_elem? (has_vpn_ip (load32 packet 16)) v.table.clients i client
                      known in
                  let (on, same) = &&-eq-true client.active _ f.1 in
                  rw
                    (
                      known,
                      handle_tun_to_udp,
                      take_all buffer_size packet (omega arith),
                      sealed_for j client.vpn_ip packet (slot_ip i client j.table f.0 on).0 fits,
                    )
                    (sent i client (seal s nonce j.enclave.manager client.vpn_ip packet)
                      (counted j v.sequence (next_id j.id)) f.0
                      (omega (
                        arith,
                        size-seal (Joint-Ready aead laws hn hb j) client.vpn_ip packet,
                        fits,
                      )))
            ])))
