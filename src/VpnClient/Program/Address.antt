-- ===== src/VpnClient/Program/Address.antt =====
-- The commands that the main loop of VPN/src/client/vpn_client.c runs to set up the interface.
use cloud_service.Config.{VpnConfig}
use cloud_service.Base.{
  if_holds, ℕ, ◌≡◌, refl, Bool, true, false, Option, none, some, List, arith, Option-cases, inl,
  inr,
}
use cloud_service.Crypto.{Sodium}
use cloud_service.System.{System, Outcomes, close_open, close, new_descriptor}
use cloud_service.VpnClient.{vpn_connect}
use cloud_service.VpnClient.Program.{
  is_set, at_most, client_username, ClientState, Handshake, Inputs, ClientOutput, begin_attempt,
  recreate_socket, on_socket, connect, setup_client_tun, with_connection, attempt_reconnect,
  ensure_connected, client_round,
}
use cloud_service.VpnClient.Program.Descriptors.{Open, IsRunning}
use cloud_service.VpnClient.Program.Reached.{AtLoop, AtLoop-IsRunning}
use cloud_service.VpnClient.Program.Rounds.{Continues, client_round-keeps}
use cloud_service.Wire.{IfDone, IfDone-weaken, Bytes}

-- The interface is there and these commands were run.
abbrev SetUpBy : List Bytes → ClientState → Type 0
SetUpBy commands c = Open c.tun_fd × (c.system.commands ≡ commands)

close_open-commands : (s : System) (fd : Option ℕ) → (close_open s fd).commands ≡ s.commands
unfolding close
close_open-commands s none = refl
close_open-commands s (some fd) = refl

module _ (o : Outcomes) (sodium : Sodium) (inet_pton : Bytes → Bool) (inet_ntop : ℕ → Bytes)
    (config : VpnConfig) where
  recreate_socket-SetUpBy :
      (commands : List Bytes) (c : ClientState)
      → SetUpBy commands c
      → SetUpBy commands (recreate_socket o inet_pton config c).0
  unfolding recreate_socket new_descriptor close
  recreate_socket-SetUpBy commands c h =
      let closed : (close_open c.system c.sock_fd).commands ≡ c.system.commands =
        close_open-commands c.system c.sock_fd in
      ground arith

  module _ (commands : List Bytes) where
    abbrev Kept : {A : Type 0} → ClientState × A × Bool → Type 0
    Kept = Continues (SetUpBy commands) (SetUpBy commands)

    Kept-any :
        {A : Type 0} (c : ClientState) (a : A) (b : Bool) → SetUpBy commands c → Kept (c, a, b)
    Kept-any c a true h = h
    Kept-any c a false h = h

    on_socket-Kept :
        (h : Handshake) (q : ClientState × Bool)
        → SetUpBy commands q.0
        → Kept (on_socket o inet_pton sodium config h q)
    on_socket-Kept h (c, false) w = w
    on_socket-Kept h (c, true) w =
        let (client, request, connected) =
          vpn_connect sodium c.client h.clock h.now h.stale (client_username config) h.sends
            h.received in
        Kept-any (record c { client = client }) request connected w

    connect-Kept :
        (c : ClientState) (h : Handshake)
        → SetUpBy commands c
        → Kept (connect o inet_pton sodium config c h)
    unfolding connect
    connect-Kept c h w =
        on_socket-Kept h (recreate_socket o inet_pton config c)
          (recreate_socket-SetUpBy commands c w)

    setup_client_tun-Kept :
        {A : Type 0} (c : ClientState) (a : A)
        → SetUpBy commands c
        → Kept ((setup_client_tun o inet_ntop c).0, a, (setup_client_tun o inet_ntop c).1)
    unfolding setup_client_tun
    setup_client_tun-Kept c a (opened, ran) = elim (Option-cases c.tun_fd) [
      | inl closed ↦ absurd (rw closed at opened)
      | inr (fd, there) ↦ rw (there, setup_client_tun) (opened, ran)
    ]

    with_connection-Kept :
        (q : ClientState × Option Bytes × Bool)
        → Kept q
        → Kept (with_connection o sodium inet_pton inet_ntop config q)
    with_connection-Kept (c, request, false) w = w
    with_connection-Kept (c, request, true) w = setup_client_tun-Kept c request w

    ensure_connected-Kept :
        (c : ClientState) (h : Handshake)
        → SetUpBy commands c
        → Kept (ensure_connected o sodium inet_pton inet_ntop config c h)
    unfolding ensure_connected attempt_reconnect
    ensure_connected-Kept c h w =
        let begun : ClientState = record c { client = begin_attempt c.client } in
        if_holds Kept c.client.connected w (
          if_holds Kept (is_set config.auto_reconnect)
            (if_holds Kept (at_most config.max_reconnect_attempts c.client.reconnect_attempts) w (
              with_connection-Kept (connect o inet_pton sodium config begun h)
                (connect-Kept begun h w)))
            w)

    ran : {A : Type 0} (q : ClientState × A × Bool) → Kept q → q.0.system.commands ≡ commands
    ran (c, a, true) h = h.1
    ran (c, a, false) h = h.1

  -- Once the client's main loop is reached, a round that does not fault runs no command, even where it
  -- reconnects and is assigned another address.
  pub client_round-commands :
      {s : System} {c : ClientState} (i : Inputs)
      → AtLoop o sodium inet_pton inet_ntop config s c
      → IfDone
          (λ (r : ClientState × List ClientOutput × Bool). r.0.system.commands ≡ c.system.commands)
          (client_round o sodium inet_pton inet_ntop config c i)
  client_round-commands {s} {c} i reached =
      let running : IsRunning s.descriptors c =
        AtLoop-IsRunning o sodium inet_pton inet_ntop config reached in
      let w : SetUpBy c.system.commands c = (running.2, refl) in
      IfDone-weaken (Kept c.system.commands) (λ r. r.0.system.commands ≡ c.system.commands)
        (client_round o sodium inet_pton inet_ntop config c i)
        (client_round-keeps o sodium inet_pton inet_ntop config (SetUpBy c.system.commands)
          (SetUpBy c.system.commands) (λ c v same h. h) (λ c h. h) c i
          (ensure_connected-Kept c.system.commands c i.handshake w))
        (ran c.system.commands)
