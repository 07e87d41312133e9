-- ===== src/TestPrograms/UdpClient/Connects.antt =====
-- The connection request of udp_test_client.c, from its bytes to what the program prints of the
-- server's answer.
use cloud_service.Base.{
  ℕ, ◌+◌, ◌^◌, ◌<◌, ◌≡◌, refl, ap, ◌∙◌, Option, some, [], ◌∷◌, ◌++◌, length, arith, take, drop,
  replicate, take_all, length-append, length-take, length-drop,
}
use cloud_service.Clients.{SockAddr, max_clients, add_client}
use cloud_service.Clients.Invariant.{IsValid, add_client-IsValid}
use cloud_service.Crypto.{Sodium}
use cloud_service.Enclave.{Enclave}
use cloud_service.EnclaveClient.{Link, enclave_handshake}
use cloud_service.EnclaveClient.Calls.{next_id, enclave_handshake_lem, with_public_key}
use cloud_service.EnclaveClient.Peer.{enclave_exchange, Ready, link_to}
use cloud_service.Keys.{perform_handshake, get_server_public_key}
use cloud_service.Protocol.{
  ConnectResponse, pkt_connect_req, pkt_connect_resp, header_size, connect_request_bytes,
  connect_response_bytes, header_bytes, init_vpn_header, read_connect_request,
}
use cloud_service.Protocol.RoundTrip.{
  HeaderFits, init_vpn_header-HeaderFits, read_connect_request_lem, read_connect_response_lem,
}
use cloud_service.Server.{Server, Moment, udp_sent, handle_udp_to_tun, on_packet, on_connect_req}
use cloud_service.Server.Data.{handle_udp_to_tun_packet, read_type}
use cloud_service.Server.Sessions.{on_connect_req_lem, answer_connect, pool_ip}
use cloud_service.TestPrograms.UdpClient.{Inputs, success, read_verdict, test_request}
use cloud_service.Text.{strncpy}
use cloud_service.Wire.{Bytes, Run, done, htonl, htonl-lt}

-- A response of status 0, whose fields fit their types, is printed as a success, whatever
-- `recv_buffer` held.
read_verdict_lem :
    (r : ConnectResponse) (stale : Bytes)
    → HeaderFits r.header
    → r.status ≡ 0
    → r.vpn_ip < 2 ^ 32
    → r.session_id < 2 ^ 32
    → length r.server_public_key ≡ 32
    → read_verdict stale (some (connect_response_bytes r)) ≡ success r.vpn_ip (htonl r.session_id)
unfolding read_verdict
read_verdict_lem r stale f ok hv hi hk =
    let n : length (connect_response_bytes r) ≡ 57 =
      unfold connect_response_bytes header_bytes in omega (arith, hk) in
    rw
      (
        take_all 2048 (connect_response_bytes r) (omega (arith, n)),
        n,
        read_connect_response_lem r (drop 57 stale) f (omega (arith, ok)) hv hi hk,
        ok,
      )
      refl

-- The server reads the 32 bytes of 0xab as the public key.
token_read :
    (i : Inputs) (rest : Bytes)
    → length i.stale_name ≡ 32
    → (read_connect_request (connect_request_bytes (test_request i) ++ rest)).auth_token
      ≡ replicate 32 0xab
unfolding test_request strncpy
token_read i rest n =
    ap (λ r. r.auth_token)
      (read_connect_request_lem (test_request i) rest
        (init_vpn_header-HeaderFits i.connect_clock 0 pkt_connect_req 64)
        (omega (arith, length-drop 31 i.stale_name, n)) refl)

module _ {s : Sodium} {public_of : Bytes → Bytes} {nonce buffer : Bytes} {e : Enclave}
    (w : Ready s public_of nonce buffer e) (m : Moment) where
  abbrev exchange : Run Enclave → Bytes → Option (Run Enclave × Bytes)
  exchange = enclave_exchange s nonce buffer

  -- The datagram of the request reaches the handler of connection requests.
  request_arrives :
      (i : Inputs) (v : Server (Run Enclave)) (stale : Bytes) (addr : SockAddr)
      → length i.stale_name ≡ 32
      → handle_udp_to_tun exchange m v stale (some (connect_request_bytes (test_request i), addr))
        ≡ on_connect_req exchange m v (connect_request_bytes (test_request i) ++ drop 80 stale) addr
  unfolding on_packet connect_request_bytes test_request init_vpn_header strncpy
  request_arrives i v stale addr n =
      let r = test_request i in
      let h = r.header in
      let body : Bytes = r.username ++ r.auth_token in
      let size : length body ≡ 64 =
        omega (arith, length-append r.username r.auth_token, length-drop 31 i.stale_name, n) in
      rw
        (
          handle_udp_to_tun_packet exchange m v stale h body addr (omega (arith, size)),
          read_type h body (drop (header_size + length body) stale)
              (init_vpn_header-HeaderFits i.connect_clock 0 pkt_connect_req 64),
          size,
        )
        refl

  -- what the server hands to the enclave, and gets
  shaken :
      (v : Server (Run Enclave)) (id client_ip ip : ℕ) (token key : Bytes)
      → v.link ≡ link_to e id
      → client_ip ≡ ip
      → client_ip < 2 ^ 32
      → token ≡ replicate 32 0xab
      → (perform_handshake s e.manager ip (replicate 32 0xab)).1 ≡ some key
      → (l : Link (Run Enclave)) × (enclave_handshake exchange v.link client_ip token
          ≡ (l, some (get_server_public_key e.manager, key)))
  shaken v id client_ip ip token key linked same small read shook = (
    link_to (record e { manager = (perform_handshake s e.manager ip (replicate 32 0xab)).0 })
        (next_id id),
    rw (linked, read, same)
        (enclave_handshake_lem w id ip (replicate 32 0xab) (rw same at small) refl
          ∙ ap
              (λ r. (
                link_to
                    (record e {
                      manager = (perform_handshake s e.manager ip (replicate 32 0xab)).0;
                    })
                    (next_id id),
                with_public_key (get_server_public_key e.manager) r,
              ))
              shook),
  )

  -- When the table of the server is valid and has room, and the enclave finds a shared secret for the
  -- token of the test client, the request of the test client is answered, and the program prints
  -- success with the address that the server gave out, whatever its buffers held.
  pub test_request-read_verdict :
      (i : Inputs) (v : Server (Run Enclave)) (stale stale' key : Bytes) (addr : SockAddr) (id : ℕ)
      → IsValid v.table
      → v.table.count < max_clients
      → v.link ≡ link_to e id
      → length i.stale_name ≡ 32
      → (perform_handshake s e.manager
          (add_client v.table addr m.now m.random).1
          (replicate 32 0xab)).1
        ≡ some key
      → (v' : Server (Run Enclave)) × (answer : Bytes) × (session : ℕ) × (handle_udp_to_tun exchange
            m v stale
            (some (connect_request_bytes (test_request i), addr))
          ≡ done (v', udp_sent answer addr ∷ []))
        × (read_verdict stale' (some answer)
            ≡ success (add_client v.table addr m.now m.random).1 session)
  test_request-read_verdict i v stale stale' key addr id valid room linked n shook =
      let b : Bytes = connect_request_bytes (test_request i) ++ drop 80 stale in
      let (k, client, found, ip, some_ip, result) =
        on_connect_req_lem exchange m v b addr valid room in
      let small = (pool_ip addr (add_client-IsValid addr m.now m.random valid) found).0 in
      let (l, keys) =
        shaken v id client.vpn_ip _ (read_connect_request b).auth_token key linked ip small
          (token_read i (drop 80 stale) n) shook in
      let public : length (take 32 (get_server_public_key e.manager)) ≡ 32 =
        unfold get_server_public_key in
        omega (
          arith,
          length-take 32 (take 32 e.manager.server_public_key),
          length-take 32 e.manager.server_public_key,
          w.table.public_key,
        ) in
      let answered =
        request_arrives i v stale addr n
        ∙ (result
            ∙ ap
                (λ r.
                  answer_connect exchange m v (add_client v.table addr m.now m.random) (k, client) r
                    addr)
                keys) in
      (
        _,
        _,
        _,
        answered,
        read_verdict_lem _ stale'
            (init_vpn_header-HeaderFits m.clock v.sequence pkt_connect_resp 41) refl
            (rw ip at small) (htonl-lt client.session_id) public,
      )
