-- ===== src/VpnClient/Program/Main.antt =====
-- `main` of VPN/src/client/vpn_client.c from `init_vpn_client` on: the start, the main loop over a list
-- of what its rounds meet, and the clean-up. Whether the memory is there and `crypto_init` succeeds is
-- an argument, as are the new key pair and the clock.
use cloud_service.Config.{VpnConfig}
use cloud_service.Base.{
  ℕ, Bool, true, false, Option, none, some, List, [], ◌∷◌, ◌++◌, if◌then◌else◌, replicate,
}
use cloud_service.Crypto.{Sodium}
use cloud_service.Protocol.{Timeval, pkt_disconnect, init_vpn_header, header_bytes}
use cloud_service.System.{System, Outcomes, close_open}
use cloud_service.VpnClient.{VpnClient, initial_backoff}
use cloud_service.VpnClient.Program.{
  ClientState, Handshake, Inputs, ClientOutput, to_server, sent, connect, setup_client_tun,
  client_round,
}
use cloud_service.Wire.{Bytes, Run, done, ◌>>=◌}

abbrev pub zeros : Bytes
zeros = replicate 32 0

-- what `memset` and the assignments behind it give, with the new key pair
abbrev pub new_client : System → Bytes → Bytes → ClientState
new_client s private_key public_key = record {
  client = record {
    client_private_key = private_key;
    client_public_key = public_key;
    server_public_key = zeros;
    session_key = zeros;
    vpn_ip = 0;
    session_id = 0;
    connected = false;
    last_ping_sent = 0;
    last_pong_received = 0;
    reconnect_attempts = 0;
    backoff_seconds = initial_backoff;
    sequence = 0;
  };
  sock_fd = none;
  tun_fd = none;
  system = s;
}

unfoldable pub init_vpn_client : System → Bool → Bytes → Bytes → Option ClientState
init_vpn_client s ready private_key public_key =
    if ready then some (new_client s private_key public_key) else none

-- the DISCONNECT, sent while there is a session
abbrev pub farewell : Timeval → VpnClient → Option ℕ → Option Bytes
farewell clock v none = none
farewell clock v (some fd) =
    if v.connected
    then some (header_bytes (init_vpn_header clock v.sequence pkt_disconnect 0).0)
    else none

unfoldable pub destroy_vpn_client : ClientState → Timeval → System × Option Bytes
destroy_vpn_client c clock =
    (close_open (close_open c.system c.sock_fd) c.tun_fd, farewell clock c.client c.sock_fd)

module _ (o : Outcomes) (sodium : Sodium) (inet_pton : Bytes → Bool) (inet_ntop : ℕ → Bytes)
    (config : VpnConfig) where
  -- the main loop
  unfoldable pub client_loop : ClientState → List Inputs → Run (ClientState × List ClientOutput)
  client_loop c [] = done (c, [])
  client_loop c (i ∷ is) = do
    (c', outputs, on) ← client_round o sodium inet_pton inet_ntop config c i
    if on
        then (do (c'', more) ← client_loop c' is; done (c'', outputs ++ more))
        else done (c', outputs)

  abbrev pub finish : Timeval → ClientState × List ClientOutput → System × List ClientOutput
  finish clock (c, outputs) =
      let (s, bye) = destroy_vpn_client c clock in (s, outputs ++ sent to_server bye)

  -- The last part is the exit status.
  abbrev pub with_tun_set_up :
      Timeval
      → List Inputs
      → Option Bytes
      → ClientState × Bool
      → Run (System × List ClientOutput × ℕ)
  with_tun_set_up clock is request (c, false) =
      let (s, outputs) = finish clock (c, sent to_server request) in done (s, outputs, 1)
  with_tun_set_up clock is request (c, true) = do
    (c', outputs) ← client_loop c is
    (let (s, all) = finish clock (c', sent to_server request ++ outputs) in done (s, all, 0))

  abbrev pub with_session :
      Timeval
      → List Inputs
      → ClientState × Option Bytes × Bool
      → Run (System × List ClientOutput × ℕ)
  with_session clock is (c, request, false) =
      let (s, outputs) = finish clock (c, sent to_server request) in done (s, outputs, 1)
  with_session clock is (c, request, true) =
      with_tun_set_up clock is request (setup_client_tun o inet_ntop c)

  unfoldable pub client_main :
      System
      → Bool
      → Bytes
      → Bytes
      → Handshake
      → Timeval
      → List Inputs
      → Run (System × List ClientOutput × ℕ)
  unfolding init_vpn_client
  client_main s ready private_key public_key h clock is =
      elim (init_vpn_client s ready private_key public_key) [
        | none ↦ done (s, [], 1)
        | some c ↦ with_session clock is (connect o inet_pton sodium config c h)
      ]
