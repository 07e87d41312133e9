-- ===== src/Server/Joint/Handshake.antt =====
-- The handshake that a connection request starts in vpn_server.c, with the server and its enclave
-- together.
use cloud_service.Base.{
  ℕ, ◌+◌, ◌%◌, ◌^◌, ◌<◌, ◌≡◌, refl, sym, inl, inr, [], length, arith, drop, Bool-cases, leb,
  length-take, length-drop, subst,
}
use cloud_service.Clients.{SockAddr, ClientEntry, max_clients, add_client, remove_client}
use cloud_service.Clients.Invariant.{add_client-IsValid, remove_client-IsValid}
use cloud_service.Clients.Refine.{add_client_full}
use cloud_service.Clients.Unique.{add_client-IsFresh, remove_client-IsFresh}
use cloud_service.Crypto.{Sodium, AeadLaws, ExchangeLaws}
use cloud_service.Enclave.{Enclave}
use cloud_service.EnclaveClient.{enclave_handshake}
use cloud_service.EnclaveClient.Calls.{next_id, enclave_handshake_lem, with_public_key}
use cloud_service.EnclaveClient.Peer.{enclave_exchange, link_to}
use cloud_service.Ipc.{ipc_max_data_size}
use cloud_service.Keys.{perform_handshake, get_server_public_key, add_key}
use cloud_service.Keys.Invariant.{
  perform_handshake_cases, add_key-IsValid, length-derive_session_key,
}
use cloud_service.Protocol.{read_connect_request}
use cloud_service.Server.{Server, Moment, on_connect_req, buffer_size}
use cloud_service.Server.Joint.Keyed.{
  remove_client-HasKey, next-remove_client, add_client-OthersHaveKey, next-add_client,
}
use cloud_service.Server.Joint.Keys.{add_key-HasKey, count-add_key}
use cloud_service.Server.Joint.State.{Joint, Joint-mono, Joint-Ready}
use cloud_service.Server.Safety.{Safely}
use cloud_service.Server.Sessions.{on_connect_req_lem, answer_connect, pool_ip}
use cloud_service.Wire.{Bytes, Run}

-- The length of the token that a CONNECT_REQ in a full buffer carries.
length-auth_token :
    (b : Bytes) → length b ≡ buffer_size → length (read_connect_request b).auth_token ≡ 32
unfolding read_connect_request
length-auth_token b h = omega (arith, length-take 32 (drop 48 b), length-drop 48 b)

module _ {s : Sodium} {public_of : Bytes → Bytes} (aead : AeadLaws s)
    (laws : ExchangeLaws s public_of) (nonce buffer : Bytes) (hn : length nonce ≡ 12)
    (hb : length buffer ≡ ipc_max_data_size) (m : Moment) where
  -- The handshake that fails: the enclave is as it was, and the new client is removed again.
  refused :
      {n : ℕ} {v : Server (Run Enclave)} (addr : SockAddr) (id : ℕ)
      → (j : Joint n v) → v.table.count < max_clients
      → Joint (n + 1) (record v {
        table =
            remove_client
              (add_client v.table addr m.now m.random).0
              (add_client v.table addr m.now m.random).1;
        link = link_to j.enclave id;
      })
  refused {n} {v} addr id j room =
      let (table, ip) = add_client v.table addr m.now m.random in
      record {
        enclave = j.enclave;
        id = id;
        linked = refl;
        table = remove_client-IsValid ip (add_client-IsValid addr m.now m.random j.table);
        keys = j.keys;
        running = j.running;
        keyed = λ few.
            let w = j.keyed (omega arith) in
            let fresh = add_client-IsFresh addr m.now m.random w.fresh (omega (arith, w.next)) in
            record {
              fresh = remove_client-IsFresh ip fresh;
              next = omega (
                arith,
                next-remove_client table ip,
                next-add_client v.table addr m.now m.random n j.table room (omega arith) w.next,
              );
              few = omega (arith, w.few);
              keys = remove_client-HasKey ip j.enclave.manager fresh (
                  add_client-OthersHaveKey addr m.now m.random j.enclave.manager j.table room
                    w.keys);
            };
      }

  -- The handshake that gives a key.
  admitted :
      {n : ℕ} {v : Server (Run Enclave)} (addr : SockAddr) (id sequence : ℕ) (key : Bytes)
      → (j : Joint n v) → v.table.count < max_clients
      → length key ≡ 32
      → Joint (n + 1) (record {
        table = (add_client v.table addr m.now m.random).0;
        link =
            link_to
              (record j.enclave {
                manager =
                    (add_key j.enclave.manager (add_client v.table addr m.now m.random).1 key).0;
              })
              id;
        sequence = sequence;
      })
  admitted {n} {v} addr id sequence key j room whole =
      let (table, ip) = add_client v.table addr m.now m.random in
      record {
        enclave = record j.enclave { manager = (add_key j.enclave.manager ip key).0 };
        id = id;
        linked = refl;
        table = add_client-IsValid addr m.now m.random j.table;
        keys = add_key-IsValid ip key j.keys whole;
        running = j.running;
        keyed = λ few.
            let w = j.keyed (omega arith) in
            record {
              fresh = add_client-IsFresh addr m.now m.random w.fresh (omega (arith, w.next));
              next =
                  next-add_client v.table addr m.now m.random n j.table room (omega arith) w.next;
              few = omega (arith, count-add_key j.enclave.manager ip key, w.few);
              keys = add_key-HasKey ip key table.clients j.keys (omega (arith, w.few)) whole (
                  add_client-OthersHaveKey addr m.now m.random j.enclave.manager j.table room
                    w.keys);
            };
      }

  answered :
      {n : ℕ} {v : Server (Run Enclave)} (addr : SockAddr) (client : ℕ × ClientEntry) (id : ℕ)
      (client_key public : Bytes)
      → (j : Joint n v) → v.table.count < max_clients
      → Safely (Joint (n + 1)) (
          answer_connect
            (enclave_exchange s nonce buffer)
            m
            v
            (add_client v.table addr m.now m.random)
            client
            (
              link_to
                  (record j.enclave {
                    manager =
                        (perform_handshake s j.enclave.manager
                          (add_client v.table addr m.now m.random).1
                          client_key).0;
                  })
                  id,
              with_public_key public
                  (perform_handshake s j.enclave.manager
                    (add_client v.table addr m.now m.random).1
                    client_key).1,
            )
            addr)
  answered {n} {v} addr client id client_key public j room =
      let ip = (add_client v.table addr m.now m.random).1 in
      perform_handshake_cases
        (λ r. Safely (Joint (n + 1)) (
          answer_connect (enclave_exchange s nonce buffer) m v
            (add_client v.table addr m.now m.random) client
            (link_to (record j.enclave { manager = r.0 }) id, with_public_key public r.1) addr))
        s j.enclave.manager ip client_key (refused addr id j room)
        (λ secret agreed.
          admitted addr id ((v.sequence + 1) % 2 ^ 32) _ j room
            (length-derive_session_key laws secret []))

  shaken :
      {n : ℕ} {v : Server (Run Enclave)} (j : Joint n v) (client_ip ip : ℕ) (client_key : Bytes)
      → client_ip < 2 ^ 32
      → client_ip ≡ ip
      → length client_key ≡ 32
      → enclave_handshake (enclave_exchange s nonce buffer) v.link client_ip client_key ≡ (
        link_to
            (record j.enclave { manager = (perform_handshake s j.enclave.manager ip client_key).0 })
            (next_id j.id),
        with_public_key
            (get_server_public_key j.enclave.manager)
            (perform_handshake s j.enclave.manager ip client_key).1,
      )
  shaken {v = v} j client_ip ip client_key small same whole =
      rw (j.linked, ← same)
        (enclave_handshake_lem (Joint-Ready aead laws hn hb j) j.id client_ip client_key small
          whole)

  pub on_connect_req-Joint :
      {n : ℕ} {v : Server (Run Enclave)} (b : Bytes) (addr : SockAddr)
      → Joint n v
      → length b ≡ buffer_size
      → Safely (Joint (n + 1)) (on_connect_req (enclave_exchange s nonce buffer) m v b addr)
  on_connect_req-Joint {n} {v} b addr j whole = elim (Bool-cases (leb max_clients v.table.count)) [
    | inl full ↦
        unfold on_connect_req in
        rw (add_client_full v.table addr m.now m.random (ground (arith, full)))
          (Joint-mono (omega arith) j)
    | inr room ↦
        let below : v.table.count < max_clients = ground (arith, room) in
        let (i, client, found, ip, some_ip, result) =
          on_connect_req_lem (enclave_exchange s nonce buffer) m v b addr j.table below in
        let small = (pool_ip addr (add_client-IsValid addr m.now m.random j.table) found).0 in
        subst (Safely (Joint (n + 1))) (sym result) (
          subst
            (λ r. Safely (Joint (n + 1)) (
              answer_connect (enclave_exchange s nonce buffer) m v
                (add_client v.table addr m.now m.random) (i, client) r addr))
            (sym (
              shaken j client.vpn_ip _ (read_connect_request b).auth_token small ip
                (length-auth_token b whole)))
            (answered addr (i, client) (next_id j.id) (read_connect_request b).auth_token
              (get_server_public_key j.enclave.manager) j below))
  ]
