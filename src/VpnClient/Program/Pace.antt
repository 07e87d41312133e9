-- ===== src/VpnClient/Program/Pace.antt =====
-- When the client reconnects: the attempts and the waiting times of VPN/src/client/vpn_client.c.
use cloud_service.Config.{VpnConfig}
use cloud_service.Base.{
  if_holds, ℕ, ◌*◌, ◌≤◌, ◌≡◌, refl, ap, ◌∙◌, subst, Bool, true, false, Option, none, some, ◌++◌,
  arith, length, drop, take,
}
use cloud_service.Crypto.{Sodium}
use cloud_service.Protocol.{Timeval, connect_request_bytes, connect_request_size}
use cloud_service.System.{Outcomes, new_descriptor}
use cloud_service.VpnClient.{
  VpnClient, connect_request, packet_size, agree, accept_response, vpn_connect, initial_backoff,
}
use cloud_service.VpnClient.Program.{
  is_set, at_most, client_username, ClientState, Handshake, Inputs, begin_attempt, recreate_socket,
  on_socket, connect, setup_client_tun, with_connection, attempt_reconnect, ensure_connected,
  client_round, max_backoff,
}
use cloud_service.VpnClient.Program.Rounds.{SamePace, Continues, client_round-keeps}
use cloud_service.Wire.{IfDone, Bytes}

Continues-both :
    {A : Type 0} (Φ Ψ : ClientState → Type 0) (q : ClientState × A × Bool)
    → ((c : ClientState) → Φ c → Ψ c)
    → Continues Φ Ψ q
    → Ψ q.0
Continues-both Φ Ψ (c, a, true) weaken h = weaken c h
Continues-both Φ Ψ (c, a, false) weaken h = h

-- The next attempt is the first one, after the shortest wait.
abbrev pub IsFresh : VpnClient → Type 0
IsFresh v = (v.reconnect_attempts ≡ 0) × (v.backoff_seconds ≡ initial_backoff)

-- One attempt at most was made, so the wait was doubled once at most.
abbrev pub AtMostOneAttempt : VpnClient → Type 0
AtMostOneAttempt v = (v.reconnect_attempts ≤ 1) × (v.backoff_seconds ≤ initial_backoff * 2)

-- The wait before the next attempt is between one second and a minute.
abbrev pub IsPaced : VpnClient → Type 0
IsPaced v = (1 ≤ v.backoff_seconds) × (v.backoff_seconds ≤ max_backoff)

begin_attempt-IsPaced : (v : VpnClient) → IsPaced v → IsPaced (begin_attempt v)
unfolding begin_attempt
begin_attempt-IsPaced v h = ground arith

begin_attempt-once : (v : VpnClient) → IsFresh v → AtMostOneAttempt (begin_attempt v)
unfolding begin_attempt
begin_attempt-once v h = ground arith

-- A successful handshake starts the count and the wait anew; a failed one leaves them.
abbrev Repaced : VpnClient → VpnClient × Bool → Type 0
Repaced v (v', true) = IsFresh v'
Repaced v (v', false) = SamePace v v'

agree-Repaced : (s : Sodium) (v : VpnClient) (now : ℕ) → Repaced v (agree s v now)
unfolding agree
agree-Repaced s v now = ground arith

accept_response-Repaced :
    (s : Sodium) (v : VpnClient) (buffer : Bytes) (now : ℕ)
    → Repaced v (accept_response s v buffer now)
unfolding accept_response agree
accept_response-Repaced s v buffer now = ground arith

Repaced-sequence :
    (v : VpnClient) (n : ℕ) (q : VpnClient × Bool)
    → Repaced (record v { sequence = n }) q
    → Repaced v q
Repaced-sequence v n (v', true) h = h
Repaced-sequence v n (v', false) h = h

vpn_connect-Repaced :
    (s : Sodium) (v : VpnClient) (clock : Timeval) (now : ℕ) (stale username : Bytes) (sends : Bool)
    (received : Option Bytes)
    → Repaced v (
      (vpn_connect s v clock now stale username sends received).0,
      (vpn_connect s v clock now stale username sends received).2,
    )
unfolding vpn_connect
vpn_connect-Repaced s v clock now stale username false received = (refl, refl)
vpn_connect-Repaced s v clock now stale username true none = (refl, refl)
vpn_connect-Repaced s v clock now stale username true (some datagram) =
    let (req, next) = connect_request v clock stale username in
    let got : Bytes = take packet_size datagram in
    let buffer : Bytes =
      got ++ drop (length got) (connect_request_bytes req ++ drop connect_request_size stale) in
    let v' : VpnClient = record v { sequence = next } in
    Repaced-sequence v next (accept_response s v' buffer now)
      (accept_response-Repaced s v' buffer now)

module _ (o : Outcomes) where
  recreate_socket-client :
      (inet_pton : Bytes → Bool) (config : VpnConfig) (c : ClientState)
      → (recreate_socket o inet_pton config c).0.client ≡ c.client
  unfolding recreate_socket new_descriptor
  recreate_socket-client inet_pton config c = ground arith

  pub setup_client_tun-client :
      (inet_ntop : ℕ → Bytes) (c : ClientState)
      → (setup_client_tun o inet_ntop c).0.client ≡ c.client
  unfolding setup_client_tun
  setup_client_tun-client inet_ntop c = ground arith

  module _ (sodium : Sodium) (inet_pton : Bytes → Bool) (config : VpnConfig) where
    abbrev pub Reconnected : VpnClient → ClientState × Option Bytes × Bool → Type 0
    Reconnected v = Continues (λ c. IsFresh c.client) (λ c. SamePace v c.client)

    session_of :
        (v : VpnClient) (c : ClientState) (r : VpnClient × Option Bytes × Bool)
        → Repaced v (r.0, r.2)
        → Reconnected v (record c { client = r.0 }, r.1, r.2)
    session_of v c (v', request, true) e = e
    session_of v c (v', request, false) e = e

    on_socket-Reconnected :
        (v : VpnClient) (h : Handshake) (q : ClientState × Bool)
        → q.0.client ≡ v
        → Reconnected v (on_socket o inet_pton sodium config h q)
    on_socket-Reconnected v h (c, false) e =
        (ap (λ w. w.reconnect_attempts) e, ap (λ w. w.backoff_seconds) e)
    on_socket-Reconnected v h (c, true) e =
        let answer : VpnClient × Option Bytes × Bool =
          vpn_connect sodium c.client h.clock h.now h.stale (client_username config) h.sends
            h.received in
        session_of v c answer (
          subst (λ w. Repaced w (answer.0, answer.2)) e
            (vpn_connect-Repaced sodium c.client h.clock h.now h.stale (client_username config)
              h.sends h.received))

    pub connect-Reconnected :
        (c : ClientState) (h : Handshake)
        → Reconnected c.client (connect o inet_pton sodium config c h)
    unfolding connect
    connect-Reconnected c h =
        on_socket-Reconnected c.client h (recreate_socket o inet_pton config c)
          (recreate_socket-client inet_pton config c)

    module _ (inet_ntop : ℕ → Bytes) (v : VpnClient) (Ψ : VpnClient → Type 0)
        (started_anew : (w : VpnClient) → IsFresh w → Ψ w)
        (as_before : (w : VpnClient) → SamePace v w → Ψ w) where
      with_tun-keeps :
          (c : ClientState) (request : Option Bytes) (q : ClientState × Bool)
          → q.0.client ≡ c.client
          → IsFresh c.client
          → Continues (λ c. IsFresh c.client) (λ c. Ψ c.client) (q.0, request, q.1)
      with_tun-keeps c request (c', true) e h = rw e h
      with_tun-keeps c request (c', false) e h = started_anew c'.client (rw e h)

      with_connection-keeps :
          (q : ClientState × Option Bytes × Bool)
          → Reconnected v q
          → Continues
              (λ c. IsFresh c.client)
              (λ c. Ψ c.client)
              (with_connection o sodium inet_pton inet_ntop config q)
      with_connection-keeps (c, request, false) h = as_before c.client h
      with_connection-keeps (c, request, true) h =
          with_tun-keeps c request (setup_client_tun o inet_ntop c)
            (setup_client_tun-client inet_ntop c) h

    module _ (inet_ntop : ℕ → Bytes) where
      abbrev Kept : {A : Type 0} → ClientState × A × Bool → Type 0
      Kept = Continues (λ c. IsFresh c.client) (λ c. AtMostOneAttempt c.client)

      ensure_connected-IsFresh :
          (c : ClientState) (h : Handshake)
          → IsFresh c.client
          → Kept (ensure_connected o sodium inet_pton inet_ntop config c h)
      unfolding ensure_connected attempt_reconnect
      ensure_connected-IsFresh c h fresh =
          let left : AtMostOneAttempt c.client = omega (arith, fresh) in
          let once : AtMostOneAttempt (begin_attempt c.client) =
            begin_attempt-once c.client fresh in
          let tried : Kept (
              with_connection o sodium inet_pton inet_ntop config (
                connect o inet_pton sodium config (record c { client = begin_attempt c.client })
                  h)) =
            with_connection-keeps inet_ntop (begin_attempt c.client) AtMostOneAttempt
              (λ w anew. omega (arith, anew)) (λ w same. omega (arith, same, once)) _
              (connect-Reconnected (record c { client = begin_attempt c.client }) h) in
          if_holds Kept c.client.connected fresh (
            if_holds Kept (is_set config.auto_reconnect)
              (if_holds Kept (at_most config.max_reconnect_attempts c.client.reconnect_attempts)
                left tried)
              left)

      -- Fresh before a round is fresh after it, if the loop goes on; if it is left, one attempt was made.
      pub client_round-IsFresh :
          (c : ClientState) (i : Inputs)
          → IsFresh c.client
          → IfDone Kept (client_round o sodium inet_pton inet_ntop config c i)
      client_round-IsFresh c i fresh =
          client_round-keeps o sodium inet_pton inet_ntop config (λ c. IsFresh c.client)
            (λ c. AtMostOneAttempt c.client) (λ c v same h. (same.0 ∙ h.0, same.1 ∙ h.1))
            (λ c h. omega (arith, h)) c i (ensure_connected-IsFresh c i.handshake fresh)

      -- Whatever the state, an attempt to reconnect leaves a wait of at least a second and at most a
      -- minute, if the wait before it was one.
      pub attempt_reconnect-IsPaced :
          (c : ClientState) (h : Handshake)
          → IsPaced c.client
          → IsPaced (attempt_reconnect o sodium inet_pton inet_ntop config c h).0.client
      unfolding attempt_reconnect
      attempt_reconnect-IsPaced c h paced =
          if_holds {A = ClientState × Option Bytes × Bool} (λ q. IsPaced q.0.client)
            (at_most config.max_reconnect_attempts c.client.reconnect_attempts) paced
            (Continues-both (λ c. IsFresh c.client) (λ c. IsPaced c.client)
              (with_connection o sodium inet_pton inet_ntop config (
                connect o inet_pton sodium config (record c { client = begin_attempt c.client }) h))
              (λ c anew. omega (arith, anew))
              (with_connection-keeps inet_ntop (begin_attempt c.client) IsPaced
                (λ w anew. omega (arith, anew))
                (λ w same. omega (arith, same, begin_attempt-IsPaced c.client paced)) _
                (connect-Reconnected (record c { client = begin_attempt c.client }) h)))
