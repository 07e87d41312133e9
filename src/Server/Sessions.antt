-- ===== src/Server/Sessions.antt =====
-- Sessions in vpn_server.c: how they begin and end, and what a stranger's packets do.
use cloud_service.Base.{
  ℕ, ◌+◌, ◌%◌, ◌^◌, ◌<◌, ◌≡◌, ◌≢◌, refl, ap, sym, ◌∙◌, false, Option, none, some, inl, inr, List,
  [], ◌∷◌, arith, take, Option-cases, ◌==◌, not, ◌-◌, All-get_elem?, true, get_elem?,
}
use cloud_service.Clients.{
  SockAddr, ClientEntry, ClientTable, max_clients, find_client_by_addr, update_client_activity,
  add_client, remove_client, has_addr, is_active, new_entry,
}
use cloud_service.Clients.Invariant.{IsValid, HasPoolIp, add_client-IsValid}
use cloud_service.Clients.Refine.{
  has_free_slot, add_client_known, add_client_new, add_new_client_at,
}
use cloud_service.EnclaveClient.{Link, enclave_handshake}
use cloud_service.Protocol.{
  header_size, connect_response_size, init_vpn_header, pkt_connect_resp, read_connect_request,
  connect_response_bytes,
}
use cloud_service.Server.{Server, Moment, Output, udp_sent, send_connect_response, on_connect_req}
use cloud_service.Slots.{find_slot, find_slot-get_elem?, find_slot-set_self, find_slot-set_hit}
use cloud_service.Wire.{Bytes, Run, done, htonl, htonl-lt, htonl-htonl}

-- The client that `add_client` has let in is found by its address.
pub add_client-find :
    (t : ClientTable) (a : SockAddr) (now random : ℕ)
    → IsValid t
    → t.count < max_clients
    → (i : ℕ) × (e : ClientEntry) × (find_client_by_addr (add_client t a now random).0 a
        ≡ some (i, e))
      × (e.vpn_ip ≡ (add_client t a now random).1)
unfolding find_client_by_addr update_client_activity
add_client-find t a now random w room = elim (Option-cases (find_slot (has_addr a) t.clients)) [
  | inl new ↦
      let (i, e, free) = has_free_slot w room in
      let f = find_slot-get_elem? (λ x. not (is_active x)) t.clients i e free in
      (
        i,
        new_entry t a now random,
        rw (add_client_new t a now random room new, add_new_client_at t a now random free)
            (find_slot-set_self (has_addr a) t.clients i _ new (ground arith) f.2),
        rw (add_client_new t a now random room new, add_new_client_at t a now random free) refl,
      )
  | inr ((i, e), old) ↦
      let f = find_slot-get_elem? (has_addr a) t.clients i e old in
      (
        i,
        record e { last_seen = now },
        rw (add_client_known t a now random room old)
            (find_slot-set_hit (has_addr a) t.clients i e _ old f.1),
        rw (add_client_known t a now random room old) refl,
      )
]

htonl_zero : htonl 0 ≡ 0
unfolding htonl
htonl_zero = refl

-- A client of a valid table has an address of the pool, which is a `uint32_t` other than 0.
pub slot_ip :
    {t : ClientTable} (i : ℕ) (e : ClientEntry)
    → IsValid t
    → get_elem? t.clients i ≡ some e
    → e.active ≡ true
    → (e.vpn_ip < 2 ^ 32) × (e.vpn_ip ≢ 0)
slot_ip {t} i e w g on =
    let (host, ip, low, high) = All-get_elem? HasPoolIp t.clients i e g w.in_pool on in
    (
      rw ip (htonl-lt host),
      λ zero_ip. absurd (
          omega (
            arith,
            htonl-htonl host (omega (arith, high)),
            ap htonl (sym ip ∙ zero_ip),
            htonl_zero,
            low,
          )),
    )

pub pool_ip :
    {t : ClientTable} (a : SockAddr) {i : ℕ} {e : ClientEntry}
    → IsValid t
    → find_client_by_addr t a ≡ some (i, e)
    → (e.vpn_ip < 2 ^ 32) × (e.vpn_ip ≢ 0)
unfolding find_client_by_addr
pool_ip {t} a {i} {e} w known =
    let f = find_slot-get_elem? (has_addr a) t.clients i e known in
    slot_ip i e w f.0 (ground (arith, f.1))

module _ {P : Type 0} (exchange : P → Bytes → Option (P × Bytes)) (m : Moment) where
  -- What the handler does with the keys of the handshake: the response, or the call of `remove_client`.
  abbrev pub answer_connect :
      Server P
      → ClientTable × ℕ
      → ℕ × ClientEntry
      → Link P × Option (Bytes × Bytes)
      → SockAddr
      → Run (Server P × List Output)
  answer_connect v (table, vpn_ip) client (link, none) addr =
      done (record v { table = remove_client table vpn_ip; link = link }, [])
  answer_connect v (table, vpn_ip) (i, client) (link, some (server_key, session_key)) addr = done (
    record { table = table; link = link; sequence = (v.sequence + 1) % 2 ^ 32 },
    udp_sent
          (connect_response_bytes (record {
            header =
                (init_vpn_header m.clock v.sequence pkt_connect_resp
                  (connect_response_size - header_size)).0;
            status = 0;
            vpn_ip = vpn_ip;
            session_id = htonl client.session_id;
            server_public_key = take 32 server_key;
          }))
          addr
        ∷ [],
  )

  send_connect_response_lem :
      (v : Server P) (addr : SockAddr) (vpn_ip i : ℕ) (client : ClientEntry) (link : Link P)
      (table : ClientTable) (keys : Bytes × Bytes)
      → find_client_by_addr table addr ≡ some (i, client)
      → send_connect_response exchange m
          (record v { table = table; link = link })
          addr
          vpn_ip
          keys.0
        ≡ answer_connect v (table, vpn_ip) (i, client) (link, some keys) addr
  unfolding send_connect_response init_vpn_header
  send_connect_response_lem v addr vpn_ip i client link table keys found =
      rw (found, send_connect_response) refl

  pub handshake_split :
      (v : Server P) (addr : SockAddr) (vpn_ip i : ℕ) (client : ClientEntry) (table : ClientTable)
      (r : Link P × Option (Bytes × Bytes))
      → find_client_by_addr table addr ≡ some (i, client)
      → (elim r.1 [
        | none ↦ done (record v { table = remove_client table vpn_ip; link = r.0 }, [])
        | some keys ↦
            send_connect_response exchange m
              (record v { table = table; link = r.0 })
              addr
              vpn_ip
              keys.0
      ])
        ≡ answer_connect v (table, vpn_ip) (i, client) r addr
  handshake_split v addr vpn_ip i client table (link, none) found = refl
  handshake_split v addr vpn_ip i client table (link, some keys) found =
      send_connect_response_lem v addr vpn_ip i client link table keys found

  -- A connection request to a valid table that is not full: the client is in the table at the address
  -- it is told, which is not 0, and the response goes to it if the handshake gives keys; else
  -- `remove_client` is called with that address and nothing is sent. The null pointer is never used.
  pub on_connect_req_lem :
      (v : Server P) (buffer : Bytes) (addr : SockAddr)
      → IsValid v.table
      → v.table.count < max_clients
      → (i : ℕ) × (client : ClientEntry) × (find_client_by_addr
            (add_client v.table addr m.now m.random).0
            addr
          ≡ some (i, client))
        × (client.vpn_ip ≡ (add_client v.table addr m.now m.random).1)
        × (client.vpn_ip ≢ 0)
        × (on_connect_req exchange m v buffer addr
            ≡ answer_connect v
                (add_client v.table addr m.now m.random)
                (i, client)
                (enclave_handshake exchange v.link client.vpn_ip
                  (read_connect_request buffer).auth_token)
                addr)
  unfolding on_connect_req
  on_connect_req_lem v buffer addr w room =
      let (i, client, found, ip) = add_client-find v.table addr m.now m.random w room in
      let some_ip : client.vpn_ip ≢ 0 =
        (pool_ip addr (add_client-IsValid addr m.now m.random w) found).1 in
      let granted : ((add_client v.table addr m.now m.random).1 == 0) ≡ false =
        ground (arith, ip, some_ip) in
      (
        i,
        client,
        found,
        ip,
        some_ip,
        rw (ip, granted)
            (handshake_split v addr (add_client v.table addr m.now m.random).1 i client
              (add_client v.table addr m.now m.random).0
              (enclave_handshake exchange v.link (add_client v.table addr m.now m.random).1
                (read_connect_request buffer).auth_token)
              found),
      )
