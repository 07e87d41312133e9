-- ===== src/Server/Joint/Handlers.antt =====
-- The handlers of vpn_server.c keep the server and its enclave together.
use cloud_service.Base.{
  ℕ, ◌+◌, ◌%◌, ◌^◌, ◌≤◌, ◌≡◌, refl, some, inl, inr, length, arith, Option-cases, get_elem?,
}
use cloud_service.Clients.{
  SockAddr, ClientEntry, has_addr, find_client_by_addr, update_client_activity,
}
use cloud_service.Clients.Invariant.{update-IsValid, remove_client-IsValid}
use cloud_service.Clients.Unique.{remove_client-IsFresh}
use cloud_service.Crypto.{Sodium, AeadLaws, ExchangeLaws}
use cloud_service.Enclave.{Enclave}
use cloud_service.EnclaveClient.Calls.{next_id}
use cloud_service.EnclaveClient.Peer.{enclave_exchange, link_to}
use cloud_service.Ipc.{ipc_max_data_size}
use cloud_service.Keys.{remove_key}
use cloud_service.Keys.Invariant.{remove_key-IsValid}
use cloud_service.Protocol.{init_vpn_header}
use cloud_service.Server.{Server, Moment, on_data, on_ping, on_disconnect, buffer_size}
use cloud_service.Server.Data.{on_data_lem}
use cloud_service.Server.Joint.Keyed.{update-Keyed, remove_client-HasKey, next-remove_client}
use cloud_service.Server.Joint.Keys.{remove_key-OthersHaveKey, count-remove_key}
use cloud_service.Server.Joint.State.{Joint, Joint-Ready}
use cloud_service.Server.Rounds.{on_disconnect_lem}
use cloud_service.Server.Safety.{Safely}
use cloud_service.Server.Sessions.{pool_ip}
use cloud_service.Slots.{find_slot, find_slot-get_elem?}
use cloud_service.Wire.{Bytes, Run}

-- The counters of requests and packets move.
pub counted :
    {n : ℕ} {v : Server (Run Enclave)} (j : Joint n v) (sequence id : ℕ)
    → Joint n (record v { link = link_to j.enclave id; sequence = sequence })
counted j sequence id = record {
  enclave = j.enclave;
  id = id;
  linked = refl;
  table = j.table;
  keys = j.keys;
  running = j.running;
  keyed = j.keyed;
}

-- A client's time is renewed.
pub renewed :
    {n : ℕ} {v : Server (Run Enclave)} (j : Joint n v) (i : ℕ) (e : ClientEntry) (now : ℕ)
    → get_elem? v.table.clients i ≡ some e
    → Joint n (record v { table = update_client_activity v.table (i, e) now })
unfolding update_client_activity
renewed j i e now g = record {
  enclave = j.enclave;
  id = j.id;
  linked = j.linked;
  table = update-IsValid i e now j.table g;
  keys = j.keys;
  running = j.running;
  keyed = λ few. update-Keyed i e now g (j.keyed few);
}

module _ {s : Sodium} {public_of : Bytes → Bytes} (aead : AeadLaws s)
    (laws : ExchangeLaws s public_of) (nonce buffer : Bytes) (hn : length nonce ≡ 12)
    (hb : length buffer ≡ ipc_max_data_size) (m : Moment) where
  pub on_data-Joint :
      {n : ℕ} {v : Server (Run Enclave)} (sealed : Bytes) (addr : SockAddr)
      → Joint n v
      → length sealed ≤ buffer_size
      → Safely (Joint n) (on_data (enclave_exchange s nonce buffer) m v sealed addr)
  unfolding find_client_by_addr
  on_data-Joint {n} {v} sealed addr j small =
      elim (Option-cases (find_slot (has_addr addr) v.table.clients)) [
        | inl stranger ↦ unfold on_data in rw (stranger, on_data) j
        | inr ((i, client), known) ↦
            rw
              (on_data_lem (Joint-Ready aead laws hn hb j) m v addr j.id i client sealed j.linked
                known (pool_ip addr j.table known).0 small)
              (renewed (counted j v.sequence (next_id j.id)) i client m.now
                (find_slot-get_elem? (has_addr addr) v.table.clients i client known).0)
      ]

  pub on_ping-Joint :
      {n : ℕ} {v : Server (Run Enclave)} (addr : SockAddr)
      → Joint n v
      → Safely (Joint n) (on_ping (enclave_exchange s nonce buffer) m v addr)
  unfolding on_ping find_client_by_addr init_vpn_header
  on_ping-Joint {n} {v} addr j =
      let next = (v.sequence + 1) % 2 ^ 32 in
      let sent : Joint n (record v { sequence = next }) = record {
        enclave = j.enclave;
        id = j.id;
        linked = j.linked;
        table = j.table;
        keys = j.keys;
        running = j.running;
        keyed = j.keyed;
      } in
      elim (Option-cases (find_slot (has_addr addr) v.table.clients)) [
        | inl stranger ↦ rw (stranger, on_ping) sent
        | inr ((i, client), known) ↦
            rw (known, on_ping)
              (renewed sent i client m.now
                (find_slot-get_elem? (has_addr addr) v.table.clients i client known).0)
      ]

  pub on_disconnect-Joint :
      {n : ℕ} {v : Server (Run Enclave)} (addr : SockAddr)
      → Joint n v
      → Safely (Joint n) (on_disconnect (enclave_exchange s nonce buffer) m v addr)
  on_disconnect-Joint {n} {v} addr j = elim (Option-cases (find_client_by_addr v.table addr)) [
    | inl stranger ↦ unfold on_disconnect in rw (stranger, on_disconnect) j
    | inr ((i, client), known) ↦
        rw
          (on_disconnect_lem m v addr j.id i client (Joint-Ready aead laws hn hb j) j.linked known
            (pool_ip addr j.table known).0)
          (record {
            enclave = record j.enclave { manager = remove_key j.enclave.manager client.vpn_ip };
            id = next_id j.id;
            linked = refl;
            table = remove_client-IsValid client.vpn_ip j.table;
            keys = remove_key-IsValid client.vpn_ip j.keys;
            running = j.running;
            keyed = λ few.
                let w = j.keyed few in
                record {
                  fresh = remove_client-IsFresh client.vpn_ip w.fresh;
                  next = omega (arith, next-remove_client v.table client.vpn_ip, w.next);
                  few = omega (arith, count-remove_key j.enclave.manager client.vpn_ip, w.few);
                  keys = remove_client-HasKey client.vpn_ip _ w.fresh (
                      remove_key-OthersHaveKey j.enclave.manager client.vpn_ip v.table.clients
                        w.keys);
                };
          })
  ]
