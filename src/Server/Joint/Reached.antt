-- ===== src/Server/Joint/Reached.antt =====
-- What holds in every state that the loop of vpn_server.c reaches with its enclave.
use cloud_service.Base.{
  ℕ, ◌+◌, ◌/◌, ◌≤◌, ◌≡◌, ◌≢◌, refl, ap, some, [], ◌∷◌, ◌++◌, length, get_or, All-get_elem?,
  &&-eq-true,
}
use cloud_service.Clients.{ClientEntry, has_vpn_ip, find_client_by_vpn_ip}
use cloud_service.Crypto.{Sodium, AeadLaws, ExchangeLaws}
use cloud_service.Enclave.{Enclave}
use cloud_service.Enclave.Reference.{unseal}
use cloud_service.EnclaveClient.Peer.{enclave_exchange}
use cloud_service.Ipc.{ipc_max_data_size}
use cloud_service.Protocol.{init_vpn_header, header_bytes, pkt_data}
use cloud_service.Server.{Server, Loop, Moment, udp_sent, handle_tun_to_udp}
use cloud_service.Server.Data.{handle_tun_to_udp_sealed}
use cloud_service.Server.Joint.Keyed.{HasKey}
use cloud_service.Server.Joint.Rounds.{Turn, IsOrdinary, Reach, start, turn, turn_result, asked}
use cloud_service.Server.Joint.Start.{start_server-Joint}
use cloud_service.Server.Joint.State.{Joint, Joint-Ready}
use cloud_service.Server.Joint.Turns.{LoopSafely, turn_result-Joint}
use cloud_service.Server.Sessions.{slot_ip}
use cloud_service.Slots.{find_slot-get_elem?}
use cloud_service.Wire.{Bytes, Run, fault, done, load32}

returned :
    (n : ℕ) (r : Run (Loop (Run Enclave)))
    → LoopSafely n r
    → (l : Loop (Run Enclave)) × (r ≡ done l)
returned n fault h = absurd h
returned n (done l) h = (l, refl)

module _ {s : Sodium} {public_of : Bytes → Bytes} (aead : AeadLaws s)
    (laws : ExchangeLaws s public_of) where
  pub Reach-Joint : {n : ℕ} {l : Loop (Run Enclave)} → Reach s n l → Joint n l.server
  Reach-Joint (start public_key private_key nonce buffer o sys now h hn hb started) =
      start_server-Joint public_key private_key nonce buffer o sys aead laws h hn hb started
  Reach-Joint (turn {n} {l} t r running ok result) =
      rw result at (turn_result-Joint l t aead laws ok (Reach-Joint r))

  -- In every reached state, an ordinary round of the loop returns, whatever it meets: no packet from
  -- the socket, no packet of at most 2004 bytes from the TUN interface and no timeout makes the
  -- server use a null pointer or write past a buffer.
  pub turn_result-returns :
      {n : ℕ} {l : Loop (Run Enclave)} (t : Turn)
      → Reach s n l
      → IsOrdinary t
      → (l' : Loop (Run Enclave)) × (turn_result s l t ≡ done l')
  turn_result-returns {n} {l} t r ok =
      returned (n + asked t) (turn_result s l t)
        (turn_result-Joint l t aead laws ok (Reach-Joint r))

  -- In every state reached after at most 254 connection requests, an IPv4 packet of 20 to 2004 bytes
  -- from the TUN interface for a client with a session is never lost for want of a key: it leaves as
  -- one DATA packet to the client's real address, which the enclave's key for the client unseals to
  -- the packet.
  pub handle_tun_to_udp-Reach :
      {n : ℕ} {l : Loop (Run Enclave)} (m : Moment) (nonce buffer packet : Bytes) (i : ℕ)
      (client : ClientEntry)
      → Reach s n l
      → n ≤ 254
      → length nonce ≡ 12
      → length buffer ≡ ipc_max_data_size
      → 20 ≤ length packet
      → length packet ≤ 2004
      → get_or packet 0 0 / 16 ≢ 6
      → find_client_by_vpn_ip l.server.table (load32 packet 16) ≡ some (i, client)
      → (e : Enclave) × (sealed : Bytes) × (v : Server (Run Enclave)) × (l.server.link.peer
          ≡ done e)
        × (handle_tun_to_udp (enclave_exchange s nonce buffer) m l.server (some packet)
            ≡ done (
              v,
              udp_sent
                    (header_bytes
                        (init_vpn_header m.clock l.server.sequence pkt_data (length packet + 28)).0
                      ++ sealed)
                    client.real_addr
                  ∷ [],
            ))
        × (unseal s e.manager client.vpn_ip sealed ≡ some packet)
  unfolding find_client_by_vpn_ip
  handle_tun_to_udp-Reach {n} {l} m nonce buffer packet i client r few hn hb long small v4 known =
      let j = Reach-Joint r in
      let f =
        find_slot-get_elem? (has_vpn_ip (load32 packet 16)) l.server.table.clients i client known in
      let (on, same) = &&-eq-true client.active _ f.1 in
      let key =
        All-get_elem? (HasKey j.enclave.manager) l.server.table.clients i client f.0
          (j.keyed few).keys on in
      let (sealed, sent, back, n) =
        handle_tun_to_udp_sealed (Joint-Ready aead laws hn hb j) m l.server packet j.id i client
          j.linked long small v4 known (slot_ip i client j.table f.0 on).0 key in
      (j.enclave, sealed, _, ap (λ k. k.peer) j.linked, sent, back)
