-- ===== src/VpnClient/Program/Rounds.antt =====
-- What a round of the main loop of VPN/src/client/vpn_client.c keeps, once it is connected: the packets
-- and the keepalive change the session alone, and neither its attempts nor its waiting time.
use cloud_service.Config.{VpnConfig}
use cloud_service.Base.{
  ℕ, ◌≡◌, refl, Bool, true, false, Option, none, some, ◌++◌, arith, drop, take,
}
use cloud_service.Crypto.{Sodium}
use cloud_service.Protocol.{Timeval, header_size}
use cloud_service.System.{Outcomes}
use cloud_service.VpnClient.{
  VpnClient, packet_size, handle_udp_to_tun, handle_tun_to_udp, on_data, check_keepalive, send_ping,
}
use cloud_service.Text.Numbers.{ℤ}
use cloud_service.VpnClient.Program.{
  ClientState, sent, to_server, Activity, select_failed, timed_out, readable, Inputs,
  ensure_connected, serve_socket, serve_tun, serve_ready, kept, selected, after_ensure,
  client_round,
}
use cloud_service.Wire.{Bytes, Run, IfDone, IfDone-bind}

-- the same number of attempts and the same waiting time
abbrev pub SamePace : VpnClient → VpnClient → Type 0
SamePace v v' =
    (v'.reconnect_attempts ≡ v.reconnect_attempts) × (v'.backoff_seconds ≡ v.backoff_seconds)

abbrev KeepsPace : {A : Type 0} → VpnClient → Run (VpnClient × A) → Type 0
KeepsPace v r = IfDone (λ p. SamePace v p.0) r

module _ (s : Sodium) where
  on_data-KeepsPace : (v : VpnClient) (ciphertext : Bytes) → KeepsPace v (on_data s v ciphertext)
  unfolding on_data
  on_data-KeepsPace v ciphertext = ground arith

  handle_udp_to_tun-KeepsPace :
      (v : VpnClient) (now : ℕ) (datagram : Option Bytes)
      → KeepsPace v (handle_udp_to_tun s v now datagram)
  unfolding handle_udp_to_tun
  handle_udp_to_tun-KeepsPace v now none = (refl, refl)
  handle_udp_to_tun-KeepsPace v now (some datagram) =
      let got : Bytes = take packet_size datagram in
      let same : KeepsPace v (on_data s v (drop header_size got)) =
        on_data-KeepsPace v (drop header_size got) in
      ground arith

  handle_tun_to_udp-KeepsPace :
      (v : VpnClient) (clock : Timeval) (nonce : Bytes) (packet : Option Bytes)
      → KeepsPace v (handle_tun_to_udp s v clock nonce packet)
  unfolding handle_tun_to_udp
  handle_tun_to_udp-KeepsPace v clock nonce packet = ground arith

check_keepalive-SamePace :
    (pong_timeout keepalive_interval : ℤ) (v : VpnClient) (clock : Timeval) (now : ℕ) (sends : Bool)
    → SamePace v (check_keepalive pong_timeout keepalive_interval v clock now sends).0
unfolding check_keepalive send_ping
check_keepalive-SamePace pong_timeout keepalive_interval v clock now sends = ground arith

-- A predicate that looks at the session only for its pace.
abbrev pub Stable : (ClientState → Type 0) → Type 0
Stable Φ =
    (c : ClientState) (v : VpnClient) → SamePace c.client v → Φ c → Φ (record c { client = v })

-- `Φ` where the loop goes on, `Ψ` where it is left
abbrev pub Continues :
    {A : Type 0} → (ClientState → Type 0) → (ClientState → Type 0) → ClientState × A × Bool → Type 0
Continues Φ Ψ (c, a, true) = Φ c
Continues Φ Ψ (c, a, false) = Ψ c

Continues-bind :
    {A B : Type 0} (Φ Ψ : ClientState → Type 0) (q : ClientState × A × Bool) (f : A → B)
    → Continues Φ Ψ q
    → Continues Φ Ψ (q.0, f q.1, q.2)
Continues-bind Φ Ψ (c, a, true) f h = h
Continues-bind Φ Ψ (c, a, false) f h = h

module _ (o : Outcomes) (sodium : Sodium) (inet_pton : Bytes → Bool) (inet_ntop : ℕ → Bytes)
    (config : VpnConfig) (Φ Ψ : ClientState → Type 0) (stable : Stable Φ)
    (weaken : (c : ClientState) → Φ c → Ψ c) where
  serve_socket-keeps :
      (i : Inputs) (c : ClientState) (datagram : Option (Option Bytes))
      → Φ c
      → IfDone (λ p. Φ p.0) (serve_socket o sodium inet_pton inet_ntop config i c datagram)
  serve_socket-keeps i c none h = h
  serve_socket-keeps i c (some datagram) h =
      IfDone-bind (λ p. SamePace c.client p.0) (λ p. Φ p.0)
        (handle_udp_to_tun sodium c.client i.now datagram) _
        (handle_udp_to_tun-KeepsPace sodium c.client i.now datagram) (λ p same. stable c p.0 same h)

  serve_tun-keeps :
      (i : Inputs) (c : ClientState) (packet : Option (Option Bytes))
      → Φ c
      → IfDone (λ p. Φ p.0) (serve_tun o sodium inet_pton inet_ntop config i c packet)
  serve_tun-keeps i c none h = h
  serve_tun-keeps i c (some packet) h =
      IfDone-bind (λ p. SamePace c.client p.0) (λ p. Φ p.0)
        (handle_tun_to_udp sodium c.client i.clock i.nonce packet) _
        (handle_tun_to_udp-KeepsPace sodium c.client i.clock i.nonce packet)
        (λ p same. stable c p.0 same h)

  serve_ready-keeps :
      (i : Inputs) (c : ClientState) (a : Activity)
      → Φ c
      → IfDone (λ p. Φ p.0) (serve_ready o sodium inet_pton inet_ntop config i c a)
  serve_ready-keeps i c select_failed h = h
  serve_ready-keeps i c timed_out h = h
  serve_ready-keeps i c (readable udp tun) h =
      IfDone-bind (λ p. Φ p.0) (λ p. Φ p.0)
        (serve_socket o sodium inet_pton inet_ntop config i c udp) _ (serve_socket-keeps i c udp h)
        (λ p h'.
          IfDone-bind (λ p. Φ p.0) (λ p. Φ p.0)
            (serve_tun o sodium inet_pton inet_ntop config i p.0 tun) _
            (serve_tun-keeps i p.0 tun h') (λ q h''. h''))

  kept-keeps :
      (i : Inputs) (c : ClientState) (q : VpnClient × Option (Option Bytes))
      → SamePace c.client q.0
      → Φ c
      → IfDone (Continues Φ Ψ) (kept o sodium inet_pton inet_ntop config i c q)
  kept-keeps i c (v, none) same h = stable c (record v { connected = false }) same h
  kept-keeps i c (v, some ping) same h =
      IfDone-bind (λ p. Φ p.0) (Continues Φ Ψ)
        (serve_ready o sodium inet_pton inet_ntop config i (record c { client = v }) i.activity) _
        (serve_ready-keeps i (record c { client = v }) i.activity (stable c v same h)) (λ p h'. h')

  selected-keeps :
      (i : Inputs) (c : ClientState) (a : Activity)
      → Φ c
      → IfDone (Continues Φ Ψ) (selected o sodium inet_pton inet_ntop config i c a)
  selected-keeps i c select_failed h = weaken c h
  selected-keeps i c timed_out h =
      kept-keeps i c _
        (check_keepalive-SamePace config.pong_timeout config.keepalive_interval c.client i.clock
          i.now i.sends)
        h
  selected-keeps i c (readable udp tun) h =
      kept-keeps i c _
        (check_keepalive-SamePace config.pong_timeout config.keepalive_interval c.client i.clock
          i.now i.sends)
        h

  after_ensure-keeps :
      (i : Inputs) (q : ClientState × Option Bytes × Bool)
      → Continues Φ Ψ q
      → IfDone (Continues Φ Ψ) (after_ensure o sodium inet_pton inet_ntop config i q)
  after_ensure-keeps i (c, request, false) h = h
  after_ensure-keeps i (c, request, true) h =
      IfDone-bind (Continues Φ Ψ) (Continues Φ Ψ)
        (selected o sodium inet_pton inet_ntop config i c i.activity) _
        (selected-keeps i c i.activity h)
        (λ p h'. Continues-bind Φ Ψ p (λ outputs. sent to_server request ++ outputs) h')

  pub client_round-keeps :
      (c : ClientState) (i : Inputs)
      → Continues Φ Ψ (ensure_connected o sodium inet_pton inet_ntop config c i.handshake)
      → IfDone (Continues Φ Ψ) (client_round o sodium inet_pton inet_ntop config c i)
  unfolding client_round
  client_round-keeps c i h =
      after_ensure-keeps i (ensure_connected o sodium inet_pton inet_ntop config c i.handshake) h
