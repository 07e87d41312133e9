-- ===== src/Server/Joint/Start.antt =====
-- The server and its enclave when the start-up of `main` of vpn_server.c ends.
use cloud_service.Base.{
  ℕ, ◌≡◌, refl, ap, sym, subst, ◌∙◌, Bool, true, false, Option, none, some, length, arith,
}
use cloud_service.Clients.{init_client_table}
use cloud_service.Clients.Invariant.{init-IsValid}
use cloud_service.Clients.Unique.{init-IsFresh}
use cloud_service.Clients.{max_clients, zero_entry}
use cloud_service.Base.{All-replicate}
use cloud_service.Crypto.{Sodium, AeadLaws, ExchangeLaws}
use cloud_service.Enclave.{Enclave}
use cloud_service.EnclaveClient.{Link, enclave_ping}
use cloud_service.EnclaveClient.Calls.{next_id, enclave_ping_lem}
use cloud_service.EnclaveClient.Peer.{enclave_exchange, Ready, link_to}
use cloud_service.Ipc.{ipc_max_data_size}
use cloud_service.Keys.{init_key_manager}
use cloud_service.Keys.Invariant
use cloud_service.Server.{Server}
use cloud_service.Server.Joint.Keyed.{HasKey, Keyed}
use cloud_service.Server.Joint.Rounds.{new_enclave}
use cloud_service.Server.Joint.State.{Joint}
use cloud_service.Server.Program.{
  Running, fresh_link, with_table, with_udp, with_tun_up, with_tun_ip, with_tun, with_ping,
  with_connection, with_enclave, start_server,
}
use cloud_service.System.{System, Outcomes, attempt}
use cloud_service.System.Processes.{start_enclave_process}
use cloud_service.System.Sockets.{
  create_tun_interface, configure_tun_ip, bring_tun_up, create_udp_server, enclave_connect,
}
use cloud_service.Text.{codes}
use cloud_service.Wire.{Bytes, Run, done}

-- The server that is running, if one is.
abbrev pub Starts : {P : Type 0} → Server P → System × Option (Running P) → Type 0
Starts v (s, none) = Unit
Starts v (s, some r) = r.server ≡ v

-- no client and no packet, and the link that the PING leaves
abbrev pub first_server : {P : Type 0} → Link P → Server P
first_server link = record { table = init_client_table; link = link; sequence = 0 }

module _ {P : Type 0} (exchange : P → Bytes → Option (P × Bytes)) (o : Outcomes) (peer : P) where
  module _ (pid fd : ℕ) (link : Link P) where
    with_table-Starts :
        (tun_fd udp_fd : ℕ) (q : System × Bool)
        → Starts (first_server link) (with_table exchange o peer pid fd tun_fd udp_fd link q)
    with_table-Starts tun_fd udp_fd (s, false) = tt
    with_table-Starts tun_fd udp_fd (s, true) = refl

    with_udp-Starts :
        (tun_fd : ℕ) (q : System × Option ℕ)
        → Starts (first_server link) (with_udp exchange o peer pid fd tun_fd link q)
    with_udp-Starts tun_fd (s, none) = tt
    with_udp-Starts tun_fd (s, some udp_fd) = with_table-Starts tun_fd udp_fd (attempt o s)

    with_tun_up-Starts :
        (tun_fd : ℕ) (q : System × Bool)
        → Starts (first_server link) (with_tun_up exchange o peer pid fd tun_fd link q)
    with_tun_up-Starts tun_fd (s, false) = tt
    with_tun_up-Starts tun_fd (s, true) = with_udp-Starts tun_fd (create_udp_server o s)

    with_tun_ip-Starts :
        (tun_fd : ℕ) (q : System × Bool)
        → Starts (first_server link) (with_tun_ip exchange o peer pid fd tun_fd link q)
    with_tun_ip-Starts tun_fd (s, false) = tt
    with_tun_ip-Starts tun_fd (s, true) =
        with_tun_up-Starts tun_fd (bring_tun_up o s (codes "tun0"))

    with_tun-Starts :
        (q : System × Option ℕ)
        → Starts (first_server link) (with_tun exchange o peer pid fd link q)
    with_tun-Starts (s, none) = tt
    with_tun-Starts (s, some tun_fd) =
        with_tun_ip-Starts tun_fd (configure_tun_ip o s (codes "tun0") (codes "10.8.0.1") 24)

  with_ping-Starts :
      (s : System) (pid fd : ℕ) (q : Link P × Bool)
      → Starts (first_server q.0) (with_ping exchange o peer s pid fd q)
  with_ping-Starts s pid fd (link, false) = tt
  with_ping-Starts s pid fd (link, true) = with_tun-Starts pid fd link (create_tun_interface o s)

  after_ping : Link P
  after_ping = (enclave_ping exchange (fresh_link exchange o peer)).0

  with_connection-Starts :
      (pid : ℕ) (q : System × Option ℕ)
      → Starts (first_server after_ping) (with_connection exchange o peer pid q)
  unfolding after_ping
  with_connection-Starts pid (s, none) = tt
  with_connection-Starts pid (s, some fd) =
      with_ping-Starts s pid fd (enclave_ping exchange (fresh_link exchange o peer))

  with_enclave-Starts :
      (q : System × Option ℕ) → Starts (first_server after_ping) (with_enclave exchange o peer q)
  with_enclave-Starts (s, none) = tt
  with_enclave-Starts (s, some pid) = with_connection-Starts pid (enclave_connect o s)

  start_server-Starts :
      (s : System) → Starts (first_server after_ping) (start_server exchange o peer s)
  unfolding start_server
  start_server-Starts s = with_enclave-Starts (start_enclave_process o s)

first-Keyed :
    (public_key private_key : Bytes)
    → Keyed 0 init_client_table (init_key_manager public_key private_key)
unfolding init_client_table init_key_manager
first-Keyed public_key private_key = record {
  fresh = init-IsFresh;
  next = omega arith;
  few = omega arith;
  keys =
      All-replicate (HasKey (init_key_manager public_key private_key)) max_clients zero_entry
        (λ on. absurd (cc on));
}

first-Joint :
    (public_key private_key : Bytes) (id : ℕ)
    → length public_key ≡ 32
    → Joint 0 (first_server (link_to (new_enclave public_key private_key) id))
first-Joint public_key private_key id h = record {
  enclave = new_enclave public_key private_key;
  id = id;
  linked = refl;
  table = init-IsValid;
  keys = Invariant.init-IsValid public_key private_key h;
  running = refl;
  keyed = λ few. first-Keyed public_key private_key;
}

-- A server that has started with a new enclave is together with it.
pub start_server-Joint :
    {s : Sodium} {public_of : Bytes → Bytes} (public_key private_key nonce buffer : Bytes)
    (o : Outcomes) (sys : System) {sys' : System} {r : Running (Run Enclave)}
    → AeadLaws s
    → ExchangeLaws s public_of
    → length public_key ≡ 32
    → length nonce ≡ 12
    → length buffer ≡ ipc_max_data_size
    → start_server
        (enclave_exchange s nonce buffer)
        o
        (done (new_enclave public_key private_key))
        sys
      ≡ (sys', some r)
    → Joint 0 r.server
unfolding after_ping
start_server-Joint {s} {public_of} public_key private_key nonce buffer o sys {r = r} aead laws h hn
      hb started =
    let e = new_enclave public_key private_key in
    let w : Ready s public_of nonce buffer e = record {
      aead = aead;
      exchange = laws;
      table = Invariant.init-IsValid public_key private_key h;
      nonce_size = hn;
      buffer_size = hb;
      running = refl;
    } in
    let starts =
      rw started at (start_server-Starts (enclave_exchange s nonce buffer) o (done e) sys) in
    let linked = ap (λ (q : Link (Run Enclave) × Bool). first_server q.0) (enclave_ping_lem w 0) in
    subst (Joint 0) (sym (starts ∙ linked)) (first-Joint public_key private_key (next_id 0) h)
