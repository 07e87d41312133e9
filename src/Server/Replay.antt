-- ===== src/Server/Replay.antt =====
-- A DATA packet that comes a second time: VPN/src/server/vpn_server.c, case PKT_DATA.
use cloud_service.Base.{ℕ, ◌+◌, ◌^◌, ◌<◌, ◌≤◌, ◌≡◌, ap, ◌∙◌, refl, some, [], ◌∷◌, ◌++◌, length}
use cloud_service.Clients.{
  SockAddr, ClientEntry, ClientTable, has_addr, find_client_by_addr, update_client_activity,
}
use cloud_service.Crypto.{Sodium}
use cloud_service.Enclave.{Enclave}
use cloud_service.Enclave.Reference.{unseal}
use cloud_service.EnclaveClient.Calls.{next_id}
use cloud_service.EnclaveClient.Peer.{enclave_exchange, Ready, link_to}
use cloud_service.Protocol.{VpnHeader, header_bytes, header_size, pkt_data}
use cloud_service.Protocol.RoundTrip.{HeaderFits}
use cloud_service.Server.{Server, Moment, tun_written, handle_udp_to_tun, buffer_size}
use cloud_service.Server.Data.{handle_udp_to_tun_data, written}
use cloud_service.Slots.{find_slot-get_elem?, find_slot-set_hit}
use cloud_service.Wire.{Bytes, Run, done}

-- A client is found again after its time was renewed.
find_client_by_addr-update :
    (t : ClientTable) (addr : SockAddr) (i : ℕ) (client : ClientEntry) (now : ℕ)
    → find_client_by_addr t addr ≡ some (i, client)
    → find_client_by_addr (update_client_activity t (i, client) now) addr
      ≡ some (i, record client { last_seen = now })
unfolding find_client_by_addr update_client_activity
find_client_by_addr-update t addr i client now known =
    find_slot-set_hit (has_addr addr) t.clients i client (record client { last_seen = now }) known
      (find_slot-get_elem? (has_addr addr) t.clients i client known).1

module _ {s : Sodium} {public_of : Bytes → Bytes} {nonce buffer nonce' buffer' : Bytes}
    {e : Enclave} (w : Ready s public_of nonce buffer e) (w' : Ready s public_of nonce' buffer' e)
    (m m' : Moment) where
  -- With an enclave that waits for requests, a ciphertext that was accepted from a session is accepted
  -- from it again, at any later time and with any sequence number and timestamp in its header: the
  -- same packet is written to the TUN interface twice.
  pub handle_udp_to_tun-replayed :
      (v : Server (Run Enclave)) (stale stale' : Bytes) (addr : SockAddr) (id i : ℕ)
      (client : ClientEntry) (h h' : VpnHeader) (sealed text : Bytes)
      → v.link ≡ link_to e id
      → find_client_by_addr v.table addr ≡ some (i, client)
      → client.vpn_ip < 2 ^ 32
      → HeaderFits h
      → HeaderFits h'
      → h.type ≡ pkt_data
      → h'.type ≡ pkt_data
      → header_size + length sealed ≤ buffer_size
      → unseal s e.manager client.vpn_ip sealed ≡ some text
      → (v' : Server (Run Enclave)) × (v'' : Server (Run Enclave)) × (handle_udp_to_tun
            (enclave_exchange s nonce buffer)
            m
            v
            stale
            (some (header_bytes h ++ sealed, addr))
          ≡ done (v', tun_written text ∷ []))
        × (handle_udp_to_tun
              (enclave_exchange s nonce' buffer')
              m'
              v'
              stale'
              (some (header_bytes h' ++ sealed, addr))
            ≡ done (v'', tun_written text ∷ []))
  handle_udp_to_tun-replayed v stale stale' addr id i client h h' sealed text linked known ip f f'
        is_data is_data' small opened =
      let v' : Server (Run Enclave) = record v {
        table = update_client_activity v.table (i, client) m.now;
        link = link_to e (next_id id);
      } in
      let client' : ClientEntry = record client { last_seen = m.now } in
      let v'' : Server (Run Enclave) = record v' {
        table = update_client_activity v'.table (i, client') m'.now;
        link = link_to e (next_id (next_id id));
      } in
      (
        v',
        v'',
        handle_udp_to_tun_data w m v stale addr id i client h sealed linked known ip f is_data small
            ∙ ap (λ t. done (v', written t)) opened,
        handle_udp_to_tun_data w' m' v' stale' addr (next_id id) i client' h' sealed refl
              (find_client_by_addr-update v.table addr i client m.now known) ip f' is_data' small
            ∙ ap (λ t. done (v'', written t)) opened,
      )
