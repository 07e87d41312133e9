-- ===== src/Server/Connect.antt =====
-- What a connection request does to the sessions of the server, as the table's specification sees them:
-- VPN/src/server/vpn_server.c, case PKT_CONNECT_REQ.
use cloud_service.Base.{
  if_true, ℕ, ◌+◌, ◌-◌, ◌%◌, ◌^◌, ◌<◌, ◌≤◌, ◌≡◌, ◌≢◌, refl, ap, sym, ◌∙◌, true, false, Option, none,
  some, inl, inr, List, [], ◌∷◌, arith, take, Bool-cases, Option-cases, ◌==◌, ==_refl, get_elem?,
  if◌then◌else◌,
}
use cloud_service.Clients.{
  SockAddr, ClientEntry, ClientTable, max_clients, last_ip, find_client_by_addr, add_client,
  remove_client, has_addr, has_vpn_ip,
}
use cloud_service.Clients.Invariant.{IsValid}
use cloud_service.Clients.Refine.{view-add_client, view-remove_client}
use cloud_service.Clients.Unique.{IsFresh, add_client-IsFresh, add_client-UniqueAddr}
use cloud_service.Clients.View.{
  Session, session, view, same_addr, granted, without_ip, UniqueAddr, UniqueIp,
}
use cloud_service.EnclaveClient.{Link, enclave_handshake}
use cloud_service.Protocol.{
  header_size, connect_response_size, init_vpn_header, pkt_connect_resp, read_connect_request,
  connect_response_bytes,
}
use cloud_service.Server.{Server, Moment, Output, udp_sent, on_connect_req}
use cloud_service.Server.Sessions.{on_connect_req_lem, answer_connect}
use cloud_service.Slots.{find_slot-get_elem?, find_slot_unique}
use cloud_service.Wire.{Bytes, Run, done, htonl}

same_addr_refl : (a : SockAddr) → same_addr a a ≡ true
same_addr_refl a = ground arith

view_slot :
    (t : ClientTable) (a : SockAddr) (s : Session)
    → view t a ≡ some s
    → (i : ℕ) × (e : ClientEntry) × (get_elem? t.clients i ≡ some e)
      × (has_addr a e ≡ true)
      × (e.vpn_ip ≡ s.vpn_ip)
unfolding find_client_by_addr
view_slot t a s here = elim (Option-cases (find_client_by_addr t a)) [
  | inl none_found ↦ absurd (cc (rw none_found at here))
  | inr ((i, e), found) ↦
      let f = find_slot-get_elem? (has_addr a) t.clients i e found in
      let same : session (i, e) ≡ s = cc (rw found at here) in
      (i, e, f.0, f.1, ap (λ r. r.vpn_ip) same)
]

-- Where no two clients share a VPN address, the session of another address has another one.
other_ip :
    (t : ClientTable) (a b : SockAddr) (s s' : Session)
    → UniqueIp t
    → view t a ≡ some s
    → view t b ≡ some s'
    → same_addr a b ≡ false
    → (s'.vpn_ip == s.vpn_ip) ≡ false
other_ip t a b s s' u here there differ = elim (Bool-cases (s'.vpn_ip == s.vpn_ip)) [
  | inl both ↦
      let (i, e, g, mine, ip) = view_slot t a s here in
      let (j, e', g', its, ip') = view_slot t b s' there in
      let one =
        find_slot_unique (has_vpn_ip s.vpn_ip) t.clients i e g (ground arith) (u s.vpn_ip) in
      let two =
        find_slot_unique (has_vpn_ip s.vpn_ip) t.clients j e' g' (ground arith) (u s.vpn_ip) in
      let eq : e ≡ e' = cc (one, two) in
      let mine' : has_addr a e' ≡ true = rw eq at mine in
      absurd (ground (arith, differ, mine', its))
  | inr fine ↦ fine
]

kept_view :
    (ip : ℕ) (r : Option Session)
    → ((s : Session) → r ≡ some s → (s.vpn_ip == ip) ≡ false)
    → without_ip ip r ≡ r
kept_view ip none h = refl
kept_view ip (some s) h = rw (h s refl) refl

removed_view :
    (t t' : ClientTable) (a : SockAddr) (s : Session)
    → UniqueAddr t'
    → UniqueIp t'
    → ((b : SockAddr) → view t' b ≡ (if same_addr a b then some s else view t b))
    → (b : SockAddr)
    → view (remove_client t' s.vpn_ip) b ≡ (if same_addr a b then none else view t b)
removed_view t t' a s ua ui added b =
    let own : view t' a ≡ some s =
      added a ∙ if_true (same_addr a a) (some s) (view t a) (same_addr_refl a) in
    view-remove_client t' s.vpn_ip b ua ui ∙ elim (Bool-cases (same_addr a b)) [
      | inl same ↦ rw (added b, same) (rw (==_refl s.vpn_ip) refl)
      | inr differ ↦
          kept_view s.vpn_ip (view t' b) (λ s' there. other_ip t' a b s s' ui own there differ)
          ∙ rw (added b, differ) refl
    ]

-- the session that an address has after its request, if the handshake gave keys
abbrev pub admitted : Session → Option (Bytes × Bytes) → Option Session
admitted own none = none
admitted own (some keys) = some own

module _ {P : Type 0} (exchange : P → Bytes → Option (P × Bytes)) (m : Moment) where
  -- the response that goes out, if the handshake gave keys
  abbrev pub connect_answer : Server P → Session → SockAddr → Option (Bytes × Bytes) → List Output
  connect_answer v own addr none = []
  connect_answer v own addr (some (server_key, session_key)) =
      udp_sent
        (connect_response_bytes (record {
          header =
              (init_vpn_header m.clock v.sequence pkt_connect_resp
                (connect_response_size - header_size)).0;
          status = 0;
          vpn_ip = own.vpn_ip;
          session_id = htonl own.session_id;
          server_public_key = take 32 server_key;
        }))
        addr
      ∷ []

  abbrev Connected :
      Server P
      → Session
      → SockAddr
      → Link P × Option (Bytes × Bytes)
      → Run (Server P × List Output)
      → Type 0
  Connected v own addr r run =
      (v' : Server P) × (run ≡ done (v', connect_answer v own addr r.1))
      × (v'.link ≡ r.0)
      × ((b : SockAddr)
          → view v'.table b ≡ (if same_addr addr b then admitted own r.1 else view v.table b))

  answer-Connected :
      (v : Server P) (addr : SockAddr) (table : ClientTable) (own : Session) (ip i : ℕ)
      (client : ClientEntry) (r : Link P × Option (Bytes × Bytes))
      → ip ≡ own.vpn_ip
      → client.session_id ≡ own.session_id
      → UniqueAddr table
      → UniqueIp table
      → ((b : SockAddr) → view table b ≡ (if same_addr addr b then some own else view v.table b))
      → Connected v own addr r (answer_connect exchange m v (table, ip) (i, client) r addr)
  answer-Connected v addr table own ip i client (link, none) eq id ua ui added =
      (_, refl, refl, λ b. rw eq (removed_view v.table table addr own ua ui added b))
  answer-Connected v addr table own ip i client (link, some keys) eq id ua ui added = (
    record { table = table; link = link; sequence = (v.sequence + 1) % 2 ^ 32 },
    rw (eq, id) refl,
    refl,
    added,
  )

  session_of :
      (t : ClientTable) (a : SockAddr) (s : Session) {i : ℕ} {client : ClientEntry}
      → view t a ≡ some s
      → find_client_by_addr t a ≡ some (i, client)
      → session (i, client) ≡ s
  session_of t a s here found = cc (rw found at here)

  -- A connection request to a valid table that is not full and has no address twice, while the pool
  -- of VPN addresses lasts. The address of the request then has the session it had, with the new
  -- time, or a new one, with a VPN address other than 0, and is told of it in the response, if the
  -- handshake gives keys; if it does not, the address has no session any more and nothing is sent.
  -- No other session changes.
  pub on_connect_req-view :
      (v : Server P) (buffer : Bytes) (addr : SockAddr)
      → IsValid v.table
      → v.table.count < max_clients
      → UniqueAddr v.table
      → IsFresh v.table
      → v.table.next_ip ≤ last_ip
      → let own = granted v.table m.now m.random (view v.table addr) in
        let r =
          enclave_handshake exchange v.link own.vpn_ip (read_connect_request buffer).auth_token in
        (own.vpn_ip ≢ 0)
        × ((v' : Server P) × (on_connect_req exchange m v buffer addr
              ≡ done (v', connect_answer v own addr r.1))
            × (v'.link ≡ r.0)
            × ((b : SockAddr)
                → view v'.table b
                  ≡ (if same_addr addr b then admitted own r.1 else view v.table b)))
  on_connect_req-view v buffer addr w room ua fresh left =
      let own : Session = granted v.table m.now m.random (view v.table addr) in
      let table : ClientTable = (add_client v.table addr m.now m.random).0 in
      let (i, client, found, ip, some_ip, run) =
        on_connect_req_lem exchange m v buffer addr w room in
      let seen : view table addr ≡ some own =
        (view-add_client v.table addr addr m.now m.random w room).0
        ∙ if_true (same_addr addr addr) (some own) (view v.table addr) (same_addr_refl addr) in
      let same : session (i, client) ≡ own = session_of table addr own seen found in
      let eq : client.vpn_ip ≡ own.vpn_ip = ap (λ s. s.vpn_ip) same in
      let shaken =
        enclave_handshake exchange v.link own.vpn_ip (read_connect_request buffer).auth_token in
      let (v', ran, linked, views) =
        answer-Connected v addr table own (add_client v.table addr m.now m.random).1 i client shaken
          (sym ip ∙ eq) (ap (λ s. s.session_id) same)
          (add_client-UniqueAddr v.table addr m.now m.random ua)
          (add_client-IsFresh addr m.now m.random fresh left).unique_ip
          (λ b. (view-add_client v.table addr b m.now m.random w room).0) in
      (
        λ z. some_ip (eq ∙ z),
        (
          v',
          run
              ∙ ap
                  (λ n.
                    answer_connect exchange m v (add_client v.table addr m.now m.random) (i, client)
                      (enclave_handshake exchange v.link n (read_connect_request buffer).auth_token)
                      addr)
                  eq
              ∙ ran,
          linked,
          views,
        ),
      )
