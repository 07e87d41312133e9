-- ===== src/VpnClient/Program.antt =====
-- The life of the VPN client: VPN/src/client/vpn_client.c but for the packets. The descriptors and the
-- system are part of the state; `sleep` and the log have no effect here. The main loop ends with its inputs, where `client_running`
-- becomes 0. `inet_pton` and `inet_ntop` are parameters.
pub mod Main
pub mod Rounds
pub mod Descriptors
pub mod Pace
pub mod Reached
pub mod Address
pub mod Arguments
pub mod Packets
pub mod Safety
pub mod Whole
use cloud_service.Config.{VpnConfig}
use cloud_service.Base.{
  ℕ, zero, take, ◌+◌, ◌*◌, Bool, true, false, not, Option, none, some, List, [], ◌∷◌, ◌++◌, ltb,
  leb, if◌then◌else◌, replicate,
}
use cloud_service.Crypto.{Sodium}
use cloud_service.Protocol.{Timeval, pkt_disconnect, init_vpn_header, header_bytes}
use cloud_service.System.{System, Outcomes, close, close_open, new_descriptor}
use cloud_service.System.Sockets.{create_tun_interface, configure_tun_ip, bring_tun_up}
use cloud_service.Text.{codes, before}
use cloud_service.Text.Numbers.{ℤ, pos, negsuc}
use cloud_service.VpnClient.{
  VpnClient, vpn_connect, handle_udp_to_tun, handle_tun_to_udp, check_keepalive, initial_backoff,
}
use cloud_service.Wire.{Bytes, Run, fault, done, ◌>>=◌}

abbrev pub max_backoff : ℕ
max_backoff = 60

-- an `int` as a condition
abbrev pub is_set : ℤ → Bool
is_set (pos zero) = false
is_set z = true

-- `z <= n` of an `int` and a count
abbrev pub at_most : ℤ → ℕ → Bool
at_most (pos m) n = leb m n
at_most (negsuc m) n = true

-- `client->username`, into which `main` copies at most 63 bytes, as a string
abbrev pub client_username : VpnConfig → Bytes
client_username config = before 0 (take 63 config.username)

-- `vpn_client_t` and the system; a descriptor that is -1 is `none`.
pub record ClientState : Type 0 where
  pub client : VpnClient
  pub sock_fd : Option ℕ
  pub tun_fd : Option ℕ
  pub system : System

-- what a handshake meets: the clock, the time, the old contents of the buffer, and the network
pub record Handshake : Type 0 where
  pub clock : Timeval
  pub now : ℕ
  pub stale : Bytes
  pub sends : Bool
  pub received : Option Bytes

-- what `select` gives; a descriptor that is ready gives what is then read from it
pub data Activity : Type 0 where
  select_failed : Activity
  timed_out : Activity
  readable : Option (Option Bytes) → Option (Option Bytes) → Activity

-- what a round of the main loop meets
pub record Inputs : Type 0 where
  pub handshake : Handshake
  pub activity : Activity
  pub clock : Timeval
  pub now : ℕ
  pub sends : Bool
  pub nonce : Bytes

pub data ClientOutput : Type 0 where
  to_server : Bytes → ClientOutput
  to_tun : Bytes → ClientOutput

abbrev pub sent : (Bytes → ClientOutput) → Option Bytes → List ClientOutput
sent f none = []
sent f (some bytes) = f bytes ∷ []

-- from `reconnect_attempts++` to `connected = 0`
unfoldable pub begin_attempt : VpnClient → VpnClient
begin_attempt v =
    let backoff = v.backoff_seconds * 2 in
    record v {
      reconnect_attempts = v.reconnect_attempts + 1;
      backoff_seconds = if ltb max_backoff backoff then max_backoff else backoff;
      connected = false;
    }

module _ (o : Outcomes) where
  module _ (inet_pton : Bytes → Bool) where
    abbrev pub with_socket : VpnConfig → ClientState → System × Option ℕ → ClientState × Bool
    with_socket config c (s, none) = (record c { sock_fd = none; system = s }, false)
    with_socket config c (s, some fd) =
        if inet_pton config.server_address
        then (record c { sock_fd = some fd; system = s }, true)
        else (record c { sock_fd = none; system = close s fd }, false)

    unfoldable pub recreate_socket : VpnConfig → ClientState → ClientState × Bool
    recreate_socket config c =
        with_socket config c (new_descriptor o (close_open c.system c.sock_fd))

    -- `vpn_connect` with its call of `recreate_socket`; the second part is the datagram sent
    abbrev pub on_socket :
        Sodium → VpnConfig → Handshake → ClientState × Bool → ClientState × Option Bytes × Bool
    on_socket sodium config h (c, false) = (c, none, false)
    on_socket sodium config h (c, true) =
        let (client, request, connected) =
          vpn_connect sodium c.client h.clock h.now h.stale (client_username config) h.sends
            h.received in
        (record c { client = client }, request, connected)

    unfoldable pub connect :
        Sodium → VpnConfig → ClientState → Handshake → ClientState × Option Bytes × Bool
    connect sodium config c h = on_socket sodium config h (recreate_socket config c)

  module _ (inet_ntop : ℕ → Bytes) where
    -- The interface that a failed step leaves is closed.
    abbrev pub tun_or_closed : ClientState → ℕ → System × Bool → ClientState × Bool
    tun_or_closed c fd (s, true) = (record c { tun_fd = some fd; system = s }, true)
    tun_or_closed c fd (s, false) = (record c { tun_fd = none; system = close s fd }, false)

    abbrev pub with_address : ClientState → ℕ → System × Bool → ClientState × Bool
    with_address c fd (s, true) = tun_or_closed c fd (bring_tun_up o s (codes "tun1"))
    with_address c fd (s, false) = (record c { tun_fd = none; system = close s fd }, false)

    abbrev pub with_tun : ClientState → System × Option ℕ → ClientState × Bool
    with_tun c (s, none) = (record c { tun_fd = none; system = s }, false)
    with_tun c (s, some fd) =
        with_address c fd (configure_tun_ip o s (codes "tun1") (inet_ntop c.client.vpn_ip) 24)

    unfoldable pub setup_client_tun : ClientState → ClientState × Bool
    setup_client_tun c = elim c.tun_fd [
      | none ↦ with_tun c (create_tun_interface o c.system)
      | some fd ↦ (c, true)
    ]

  module _ (sodium : Sodium) (inet_pton : Bytes → Bool) (inet_ntop : ℕ → Bytes)
      (config : VpnConfig) where
    abbrev pub with_connection :
        ClientState × Option Bytes × Bool → ClientState × Option Bytes × Bool
    with_connection (c, request, false) = (c, request, false)
    with_connection (c, request, true) =
        let (c', up) = setup_client_tun inet_ntop c in (c', request, up)

    -- The last part is whether the return value is 0.
    unfoldable pub attempt_reconnect : ClientState → Handshake → ClientState × Option Bytes × Bool
    attempt_reconnect c h =
        if at_most config.max_reconnect_attempts c.client.reconnect_attempts
        then (c, none, false)
        else with_connection
            (connect inet_pton sodium config (record c { client = begin_attempt c.client }) h)

    -- the start of a round; the last part is false where the loop is left
    unfoldable pub ensure_connected : ClientState → Handshake → ClientState × Option Bytes × Bool
    ensure_connected c h =
        if c.client.connected
        then (c, none, true)
        else if is_set config.auto_reconnect
        then attempt_reconnect c h
        else (c, none, false)

    abbrev pub serve_socket :
        Inputs → ClientState → Option (Option Bytes) → Run (ClientState × List ClientOutput)
    serve_socket i c none = done (c, [])
    serve_socket i c (some datagram) = do
      (client, packet) ← handle_udp_to_tun sodium c.client i.now datagram
      done (record c { client = client }, sent to_tun packet)

    abbrev pub serve_tun :
        Inputs → ClientState → Option (Option Bytes) → Run (ClientState × List ClientOutput)
    serve_tun i c none = done (c, [])
    serve_tun i c (some packet) = do
      (client, datagram) ← handle_tun_to_udp sodium c.client i.clock i.nonce packet
      done (record c { client = client }, sent to_server datagram)

    -- from `FD_ISSET` on
    abbrev pub serve_ready : Inputs → ClientState → Activity → Run (ClientState × List ClientOutput)
    serve_ready i c select_failed = done (c, [])
    serve_ready i c timed_out = done (c, [])
    serve_ready i c (readable udp tun) = do
      (c', written) ← serve_socket i c udp
      (c'', sent_on) ← serve_tun i c' tun
      done (c'', written ++ sent_on)

    -- from the result of `check_keepalive` on; the last part is whether the loop goes on
    abbrev pub kept :
        Inputs
        → ClientState
        → VpnClient × Option (Option Bytes)
        → Run (ClientState × List ClientOutput × Bool)
    kept i c (client, none) =
        done (record c { client = record client { connected = false } }, [], true)
    kept i c (client, some ping) = do
      (c', outputs) ← serve_ready i (record c { client = client }) i.activity
      done (c', sent to_server ping ++ outputs, true)

    -- from `select` on
    abbrev pub selected :
        Inputs → ClientState → Activity → Run (ClientState × List ClientOutput × Bool)
    selected i c select_failed = done (c, [], false)
    selected i c timed_out = kept i c (
        check_keepalive config.pong_timeout config.keepalive_interval c.client i.clock i.now
          i.sends)
    selected i c (readable udp tun) = kept i c (
        check_keepalive config.pong_timeout config.keepalive_interval c.client i.clock i.now
          i.sends)

    abbrev pub after_ensure :
        Inputs → ClientState × Option Bytes × Bool → Run (ClientState × List ClientOutput × Bool)
    after_ensure i (c, request, false) = done (c, sent to_server request, false)
    after_ensure i (c, request, true) = do
      (c', outputs, on) ← selected i c i.activity
      done (c', sent to_server request ++ outputs, on)

    -- a round of the main loop
    unfoldable pub client_round :
        ClientState → Inputs → Run (ClientState × List ClientOutput × Bool)
    client_round c i = after_ensure i (ensure_connected c i.handshake)
