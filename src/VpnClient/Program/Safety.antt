-- ===== src/VpnClient/Program/Safety.antt =====
-- The whole of `main` of VPN/src/client/vpn_client.c on inputs that its handlers can process.
use cloud_service.Config.{VpnConfig}
use cloud_service.Base.{
  ℕ, ◌≤◌, ◌≡◌, refl, Bool, true, false, Option, none, some, List, [], ◌∷◌, if_holds, length,
}
use cloud_service.Crypto.{Sodium, AeadLaws}
use cloud_service.Protocol.{Timeval}
use cloud_service.System.{System, Outcomes}
use cloud_service.VpnClient.{VpnClient, handle_udp_to_tun, handle_tun_to_udp}
use cloud_service.VpnClient.Program.{
  ClientState, ClientOutput, Handshake, Activity, select_failed, timed_out, readable, Inputs,
  serve_socket, serve_tun, serve_ready, kept, selected, after_ensure, client_round,
}
use cloud_service.VpnClient.Program.Main.{
  client_loop, client_main, init_vpn_client, with_session, with_tun_set_up,
}
use cloud_service.VpnClient.Program.Packets.{
  Returns, Returns-bind, SafeDatagram, SafeRead, SafeActivity, AllSafe, handle_udp_to_tun-Returns,
  handle_tun_to_udp-Returns,
}
use cloud_service.VpnClient.Program.Reached.{client_main-Restored}
use cloud_service.Wire.{Bytes, Run, fault, done, IfDone}

module _ (o : Outcomes) (sodium : Sodium) (laws : AeadLaws sodium) (inet_pton : Bytes → Bool)
    (inet_ntop : ℕ → Bytes) (config : VpnConfig) where
  serve_socket-Returns :
      (i : Inputs) (c : ClientState) (udp : Option (Option Bytes))
      → SafeRead SafeDatagram udp
      → Returns (serve_socket o sodium inet_pton inet_ntop config i c udp)
  unfolding handle_udp_to_tun
  serve_socket-Returns i c none safe = tt
  serve_socket-Returns i c (some none) safe = tt
  serve_socket-Returns i c (some (some datagram)) safe =
      Returns-bind (handle_udp_to_tun sodium c.client i.now (some datagram)) _
        (handle_udp_to_tun-Returns sodium laws c.client i.now datagram safe) (λ p. tt)

  serve_tun-Returns :
      (i : Inputs) (c : ClientState) (tun : Option (Option Bytes))
      → SafeRead (λ packet. length packet ≤ 2000) tun
      → Returns (serve_tun o sodium inet_pton inet_ntop config i c tun)
  unfolding handle_tun_to_udp
  serve_tun-Returns i c none safe = tt
  serve_tun-Returns i c (some none) safe = tt
  serve_tun-Returns i c (some (some packet)) safe =
      Returns-bind (handle_tun_to_udp sodium c.client i.clock i.nonce (some packet)) _
        (handle_tun_to_udp-Returns sodium laws c.client i.clock i.nonce packet safe) (λ p. tt)

  serve_ready-Returns :
      (i : Inputs) (c : ClientState) (a : Activity)
      → SafeActivity a
      → Returns (serve_ready o sodium inet_pton inet_ntop config i c a)
  serve_ready-Returns i c select_failed safe = tt
  serve_ready-Returns i c timed_out safe = tt
  serve_ready-Returns i c (readable udp tun) (safe, safe') =
      Returns-bind (serve_socket o sodium inet_pton inet_ntop config i c udp) _
        (serve_socket-Returns i c udp safe)
        (λ p.
          Returns-bind (serve_tun o sodium inet_pton inet_ntop config i p.0 tun) _
            (serve_tun-Returns i p.0 tun safe') (λ q. tt))

  kept-Returns :
      (i : Inputs) (c : ClientState) (q : VpnClient × Option (Option Bytes))
      → SafeActivity i.activity
      → Returns (kept o sodium inet_pton inet_ntop config i c q)
  kept-Returns i c (v, none) safe = tt
  kept-Returns i c (v, some ping) safe =
      Returns-bind
        (serve_ready o sodium inet_pton inet_ntop config i (record c { client = v }) i.activity) _
        (serve_ready-Returns i (record c { client = v }) i.activity safe) (λ p. tt)

  selected-Returns :
      (i : Inputs) (c : ClientState) (a : Activity)
      → SafeActivity i.activity
      → Returns (selected o sodium inet_pton inet_ntop config i c a)
  selected-Returns i c select_failed safe = tt
  selected-Returns i c timed_out safe = kept-Returns i c _ safe
  selected-Returns i c (readable udp tun) safe = kept-Returns i c _ safe

  after_ensure-Returns :
      (i : Inputs) (q : ClientState × Option Bytes × Bool)
      → SafeActivity i.activity
      → Returns (after_ensure o sodium inet_pton inet_ntop config i q)
  after_ensure-Returns i (c, request, false) safe = tt
  after_ensure-Returns i (c, request, true) safe =
      Returns-bind (selected o sodium inet_pton inet_ntop config i c i.activity) _
        (selected-Returns i c i.activity safe) (λ p. tt)

  client_round-Returns :
      (c : ClientState) (i : Inputs)
      → SafeActivity i.activity
      → Returns (client_round o sodium inet_pton inet_ntop config c i)
  unfolding client_round
  client_round-Returns c i safe = after_ensure-Returns i _ safe

  client_loop-Returns :
      (c : ClientState) (is : List Inputs)
      → AllSafe is
      → Returns (client_loop o sodium inet_pton inet_ntop config c is)
  unfolding client_loop AllSafe
  client_loop-Returns c [] safe = tt
  client_loop-Returns c (i ∷ is) (safe, all) =
      Returns-bind (client_round o sodium inet_pton inet_ntop config c i) _
        (client_round-Returns c i safe)
        (λ p.
          if_holds Returns p.2
            (Returns-bind (client_loop o sodium inet_pton inet_ntop config p.0 is) _
              (client_loop-Returns p.0 is all) (λ q. tt))
            tt)

  with_tun_set_up-Returns :
      (clock : Timeval) (is : List Inputs) (request : Option Bytes) (q : ClientState × Bool)
      → AllSafe is
      → Returns (with_tun_set_up o sodium inet_pton inet_ntop config clock is request q)
  with_tun_set_up-Returns clock is request (c, false) safe = tt
  with_tun_set_up-Returns clock is request (c, true) safe =
      Returns-bind (client_loop o sodium inet_pton inet_ntop config c is) _
        (client_loop-Returns c is safe) (λ p. tt)

  with_session-Returns :
      (clock : Timeval) (is : List Inputs) (q : ClientState × Option Bytes × Bool)
      → AllSafe is
      → Returns (with_session o sodium inet_pton inet_ntop config clock is q)
  with_session-Returns clock is (c, request, false) safe = tt
  with_session-Returns clock is (c, request, true) safe =
      with_tun_set_up-Returns clock is request _ safe

  client_main-Returns :
      (s : System) (ready : Bool) (private_key public_key : Bytes) (h : Handshake) (clock : Timeval)
      (is : List Inputs)
      → AllSafe is
      → Returns (
          client_main o sodium inet_pton inet_ntop config s ready private_key public_key h clock is)
  unfolding client_main init_vpn_client
  client_main-Returns s false private_key public_key h clock is safe = tt
  client_main-Returns s true private_key public_key h clock is safe =
      with_session-Returns clock is _ safe

  returned :
      {A : Type 0} (Φ : A → Type 0) (r : Run A)
      → Returns r
      → IfDone Φ r
      → (a : A) × (r ≡ done a) × Φ a
  returned Φ fault h k = absurd h
  returned Φ (done a) h k = (a, refl, k)

  -- With libsodium as documented, and as long as every datagram has less than a header or a nonce
  -- behind its header, and every packet of the interface at most 2000 bytes: the client stays
  -- within its buffers and comes to its end, and however it ends (no memory, a handshake or an
  -- interface that fails, a lost connection, a failed `select` or a signal), it has closed every
  -- descriptor it opened and none that was there before.
  pub client_main-descriptors :
      (s : System) (ready : Bool) (private_key public_key : Bytes) (h : Handshake) (clock : Timeval)
      (is : List Inputs)
      → AllSafe is
      → (r : System × List ClientOutput × ℕ) × (client_main o sodium inet_pton inet_ntop config s
            ready private_key public_key h clock is
          ≡ done r)
        × (r.0.descriptors ≡ s.descriptors)
  client_main-descriptors s ready private_key public_key h clock is safe =
      returned (λ r. r.0.descriptors ≡ s.descriptors) _
        (client_main-Returns s ready private_key public_key h clock is safe)
        (client_main-Restored o sodium inet_pton inet_ntop config s ready private_key public_key h
          clock is)
