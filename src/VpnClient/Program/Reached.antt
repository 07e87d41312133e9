-- ===== src/VpnClient/Program/Reached.antt =====
-- The states in which `main` of VPN/src/client/vpn_client.c starts a round of its loop, and the whole
-- of `main`.
use cloud_service.Config.{VpnConfig}
use cloud_service.Base.{
  if_holds, ℕ, ◌≡◌, refl, ap, sym, Bool, true, false, Option, none, some, inl, List, [], ◌∷◌, ◌++◌,
  if◌then◌else◌,
}
use cloud_service.Crypto.{Sodium}
use cloud_service.Protocol.{Timeval}
use cloud_service.System.{System, Outcomes}
use cloud_service.VpnClient.{VpnClient, vpn_connect}
use cloud_service.VpnClient.Program.{
  is_set, at_most, client_username, ClientState, Handshake, Inputs, ClientOutput, begin_attempt,
  recreate_socket, on_socket, connect, setup_client_tun, with_connection, attempt_reconnect,
  ensure_connected, client_round,
}
use cloud_service.VpnClient.Program.Descriptors.{
  Open, Owns, IsRunning, Recreated, SetUp, recreate_socket-Owns, setup_client_tun-SetUp, destroyed,
}
use cloud_service.VpnClient.Program.Main.{
  new_client, init_vpn_client, destroy_vpn_client, client_loop, client_main, with_session,
  with_tun_set_up,
}
use cloud_service.VpnClient.Program.Pace.{
  IsFresh, client_round-IsFresh, Reconnected, connect-Reconnected, setup_client_tun-client,
}
use cloud_service.VpnClient.Program.Rounds.{Continues, client_round-keeps}
use cloud_service.Wire.{IfDone, IfDone-bind, Bytes, Run, done, ◌>>=◌}

module _ (o : Outcomes) (sodium : Sodium) (inet_pton : Bytes → Bool) (inet_ntop : ℕ → Bytes)
    (config : VpnConfig) where
  -- The state at the start of a round: after the start-up from the system `s`, or after a round that
  -- goes on.
  pub data AtLoop (s : System) : ClientState → Type 0 where
    started :
        (ready : Bool) (private_key public_key : Bytes) (c c' : ClientState) {c'' : ClientState}
        (h : Handshake) (request : Option Bytes)
        → init_vpn_client s ready private_key public_key ≡ some c
        → connect o inet_pton sodium config c h ≡ (c', request, true)
        → setup_client_tun o inet_ntop c' ≡ (c'', true)
        → AtLoop s c''
    goes_on :
        (c : ClientState) {c' : ClientState} (i : Inputs) (outputs : List ClientOutput)
        → AtLoop s c
        → client_round o sodium inet_pton inet_ntop config c i ≡ done (c', outputs, true)
        → AtLoop s c'

  module _ (base : List ℕ) where
    abbrev Held : {A : Type 0} → ClientState × A × Bool → Type 0
    Held = Continues (IsRunning base) (Owns base)

    abbrev Connected : {A : Type 0} → ClientState → ClientState × A × Bool → Type 0
    Connected c =
        Continues (λ c'. Owns base c' × Open c'.sock_fd × (c'.tun_fd ≡ c.tun_fd)) (Owns base)

    answered :
        (c c' : ClientState) (r : VpnClient × Option Bytes × Bool)
        → Owns base c' × Open c'.sock_fd × (c'.tun_fd ≡ c.tun_fd)
        → Connected c (record c' { client = r.0 }, r.1, r.2)
    answered c c' (v, request, true) h = h
    answered c c' (v, request, false) h = h.0

    on_socket-Connected :
        (h : Handshake) (c : ClientState) (q : ClientState × Bool)
        → Recreated base c q
        → Connected c (on_socket o inet_pton sodium config h q)
    on_socket-Connected h c (c', false) r = r
    on_socket-Connected h c (c', true) r =
        answered c c'
          (vpn_connect sodium c'.client h.clock h.now h.stale (client_username config) h.sends
            h.received)
          r

    connect-Connected :
        (c : ClientState) (h : Handshake)
        → Owns base c
        → Connected c (connect o inet_pton sodium config c h)
    unfolding connect
    connect-Connected c h owns =
        on_socket-Connected h c (recreate_socket o inet_pton config c)
          (recreate_socket-Owns o inet_pton config base c owns)

    SetUp-Held :
        {A : Type 0} (q : ClientState × Bool) (a : A)
        → SetUp o inet_ntop base q
        → Held (q.0, a, q.1)
    SetUp-Held (c, true) a h = h
    SetUp-Held (c, false) a h = h

    with_connection-Held :
        (c : ClientState) (q : ClientState × Option Bytes × Bool)
        → Connected c q
        → Held (with_connection o sodium inet_pton inet_ntop config q)
    with_connection-Held c (c', request, false) h = h
    with_connection-Held c (c', request, true) (owns, opened, same) =
        SetUp-Held (setup_client_tun o inet_ntop c') request
          (setup_client_tun-SetUp o inet_ntop base c' opened owns)

    ensure_connected-Held :
        (c : ClientState) (h : Handshake)
        → IsRunning base c
        → Held (ensure_connected o sodium inet_pton inet_ntop config c h)
    unfolding ensure_connected attempt_reconnect
    ensure_connected-Held c h running = if_holds Held c.client.connected running (
        if_holds Held (is_set config.auto_reconnect)
          (if_holds Held (at_most config.max_reconnect_attempts c.client.reconnect_attempts)
            running.0
            (with_connection-Held c _
              (connect-Connected (record c { client = begin_attempt c.client }) h running.0)))
          running.0)

    client_round-Held :
        (c : ClientState) (i : Inputs)
        → IsRunning base c
        → IfDone Held (client_round o sodium inet_pton inet_ntop config c i)
    client_round-Held c i running =
        client_round-keeps o sodium inet_pton inet_ntop config (IsRunning base) (Owns base)
          (λ c v same h. h) (λ c h. h.0) c i (ensure_connected-Held c i.handshake running)

    looped :
        (is : List Inputs) (x : ClientState × List ClientOutput × Bool)
        → Held x
        → (IsRunning base x.0
            → IfDone {A = ClientState × List ClientOutput}
                (λ p. Owns base p.0)
                (client_loop o sodium inet_pton inet_ntop config x.0 is))
        → IfDone {A = ClientState × List ClientOutput}
            (λ p. Owns base p.0)
            (if x.2
              then client_loop o sodium inet_pton inet_ntop config x.0 is
                >>= (λ q. done (q.0, x.1 ++ q.1))
              else done (x.0, x.1))
    looped is (c, outputs, true) h k =
        IfDone-bind (λ p. Owns base p.0) (λ p. Owns base p.0)
          (client_loop o sodium inet_pton inet_ntop config c is) _ (k h) (λ q h'. h')
    looped is (c, outputs, false) h k = h

    client_loop-Owns :
        (c : ClientState) (is : List Inputs)
        → IsRunning base c
        → IfDone (λ p. Owns base p.0) (client_loop o sodium inet_pton inet_ntop config c is)
    unfolding client_loop
    client_loop-Owns c [] running = running.0
    client_loop-Owns c (i ∷ is) running =
        IfDone-bind Held (λ p. Owns base p.0) (client_round o sodium inet_pton inet_ntop config c i)
          _ (client_round-Held c i running) (λ x h. looped is x h (client_loop-Owns x.0 is))

    abbrev pub Restored : Run (System × List ClientOutput × ℕ) → Type 0
    Restored = IfDone (λ (r : System × List ClientOutput × ℕ). r.0.descriptors ≡ base)

    with_tun_set_up-Restored :
        (clock : Timeval) (is : List Inputs) (request : Option Bytes) (q : ClientState × Bool)
        → SetUp o inet_ntop base q
        → Restored (with_tun_set_up o sodium inet_pton inet_ntop config clock is request q)
    unfolding destroy_vpn_client
    with_tun_set_up-Restored clock is request (c, false) owns = destroyed c base owns
    with_tun_set_up-Restored clock is request (c, true) running =
        IfDone-bind (λ p. Owns base p.0) (λ r. r.0.descriptors ≡ base)
          (client_loop o sodium inet_pton inet_ntop config c is) _ (client_loop-Owns c is running)
          (λ p owns. destroyed p.0 base owns)

    with_session-Restored :
        (clock : Timeval) (is : List Inputs) (c : ClientState)
        (q : ClientState × Option Bytes × Bool)
        → Connected c q
        → Restored (with_session o sodium inet_pton inet_ntop config clock is q)
    unfolding destroy_vpn_client
    with_session-Restored clock is c (c', request, false) owns = destroyed c' base owns
    with_session-Restored clock is c (c', request, true) (owns, opened, same) =
        with_tun_set_up-Restored clock is request (setup_client_tun o inet_ntop c')
          (setup_client_tun-SetUp o inet_ntop base c' opened owns)

  -- However the client ends (no memory, a handshake or an interface that fails, a lost connection, a
  -- failed `select` or a signal), it has closed every descriptor it opened and none that was there
  -- before, unless a packet made it fault.
  pub client_main-Restored :
      (s : System) (ready : Bool) (private_key public_key : Bytes) (h : Handshake) (clock : Timeval)
      (is : List Inputs)
      → Restored s.descriptors (
          client_main o sodium inet_pton inet_ntop config s ready private_key public_key h clock is)
  unfolding client_main
  client_main-Restored s false private_key public_key h clock is = refl
  client_main-Restored s true private_key public_key h clock is =
      let c : ClientState = new_client s private_key public_key in
      with_session-Restored s.descriptors clock is c (connect o inet_pton sodium config c h)
        (connect-Connected s.descriptors c h (tt, tt, tt, inl refl))

  -- A client that holds nothing and has made no attempt to reconnect.
  abbrev Initial : System → Option ClientState → Type 0
  Initial s none = Unit
  Initial s (some c) = Owns s.descriptors c × IsFresh c.client

  init_vpn_client-Initial :
      (s : System) (ready : Bool) (private_key public_key : Bytes)
      → Initial s (init_vpn_client s ready private_key public_key)
  unfolding init_vpn_client
  init_vpn_client-Initial s true private_key public_key = ((tt, tt, tt, inl refl), (refl, refl))
  init_vpn_client-Initial s false private_key public_key = tt

  -- At the start of every round of its main loop the client has a socket and a TUN interface, two
  -- different open descriptors, and holds nothing else that was not there before it started.
  pub AtLoop-IsRunning : {s : System} {c : ClientState} → AtLoop s c → IsRunning s.descriptors c
  AtLoop-IsRunning {s} (started ready private_key public_key c c' h request made connected up) =
      let initial : Initial s (some c) =
        rw made at (init_vpn_client-Initial s ready private_key public_key) in
      let joined : Connected s.descriptors {A = Option Bytes} c (c', request, true) =
        rw connected at (connect-Connected s.descriptors c h initial.0) in
      rw up at (setup_client_tun-SetUp o inet_ntop s.descriptors c' joined.1 joined.0)
  AtLoop-IsRunning {s} (goes_on c i outputs before round) =
      rw round at (client_round-Held s.descriptors c i (AtLoop-IsRunning before))

  -- At the start of every round of its main loop the client counts no attempt to reconnect and its
  -- waiting time is the initial one.
  pub AtLoop-IsFresh : {s : System} {c : ClientState} → AtLoop s c → IsFresh c.client
  AtLoop-IsFresh {s} (started ready private_key public_key c c' h request made connected up) =
      let anew : Reconnected o sodium inet_pton config c.client (c', request, true) =
        rw connected at (connect-Reconnected o sodium inet_pton config c h) in
      rw (sym (ap (λ q. q.0) up), setup_client_tun-client o inet_ntop c') anew
  AtLoop-IsFresh (goes_on c i outputs before round) =
      rw round at
        (client_round-IsFresh o sodium inet_pton config inet_ntop c i (AtLoop-IsFresh before))
