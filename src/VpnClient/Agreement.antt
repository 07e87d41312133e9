-- ===== src/VpnClient/Agreement.antt =====
-- The connection exchange between the client and the server, and the session key of each.
use cloud_service.Base.{
  ℕ, ◌-◌, ◌^◌, ◌<◌, ◌≡◌, refl, ap, sym, ◌∙◌, true, some, [], ◌++◌, ◌==◌, length, arith, take, drop,
  take_all, length-append, length-take, length-drop, length-replicate, replicate,
}
use cloud_service.Crypto.{
  Sodium, ExchangeLaws, crypto_ecdh, crypto_derive_session_key, xor_salt-nil, session_context,
}
use cloud_service.Keys.{KeyManager, perform_handshake}
use cloud_service.Keys.Invariant.{perform_handshake_cases}
use cloud_service.Protocol.{
  ConnectResponse, Timeval, connect_request_bytes, read_connect_request, pkt_connect_req,
  connect_response_bytes, pkt_connect_resp, init_vpn_header,
}
use cloud_service.Protocol.RoundTrip.{
  HeaderFits, read_connect_response_lem, read_connect_request_lem, init_vpn_header-HeaderFits,
}
use cloud_service.VpnClient.{
  VpnClient, packet_size, copy_string, connect_request, agree, accept_response,
}
use cloud_service.Wire.{Bytes, htonl}

-- The secret behind the key of a handshake that succeeds.
handshake_secret :
    (s : Sodium) (km : KeyManager) (ip : ℕ) (client_public_key key : Bytes)
    → (perform_handshake s km ip client_public_key).1 ≡ some key
    → (secret : Bytes) × (crypto_ecdh s km.server_private_key client_public_key ≡ some secret)
      × (s.kdf_derive_from_key 32 1 session_context secret ≡ key)
unfolding crypto_derive_session_key
handshake_secret s km ip client_public_key key =
    perform_handshake_cases
      (λ r.
        r.1 ≡ some key
        → (secret : Bytes) × (crypto_ecdh s km.server_private_key client_public_key ≡ some secret)
          × (s.kdf_derive_from_key 32 1 session_context secret ≡ key))
      s km ip client_public_key (λ h. absurd (cc h))
      (λ secret agreed h.
        let same : crypto_derive_session_key s secret [] ≡ key = cc h in
        (
          secret,
          agreed,
          sym (xor_salt-nil 32 (s.kdf_derive_from_key 32 1 session_context secret)) ∙ same,
        ))

agree_lem :
    (s : Sodium) (c : VpnClient) (now : ℕ) (secret : Bytes)
    → s.box_beforenm c.server_public_key c.client_private_key ≡ some secret
    → ((agree s c now).1 ≡ true)
      × ((agree s c now).0.session_key ≡ s.kdf_derive_from_key 32 1 session_context secret)
      × ((agree s c now).0.vpn_ip ≡ c.vpn_ip)
      × ((agree s c now).0.session_id ≡ c.session_id)
unfolding agree crypto_ecdh
agree_lem s c now secret h = rw (h, agree) (refl, refl, refl, refl)

accept_response_lem :
    (s : Sodium) (c : VpnClient) (r : ConnectResponse) (now : ℕ) (rest : Bytes)
    → HeaderFits r.header
    → r.header.type ≡ pkt_connect_resp
    → r.status ≡ 0
    → r.vpn_ip < 2 ^ 32
    → r.session_id < 2 ^ 32
    → length r.server_public_key ≡ 32
    → accept_response s c (connect_response_bytes r ++ rest) now
      ≡ agree s
          (record c {
            vpn_ip = r.vpn_ip;
            session_id = htonl r.session_id;
            server_public_key = r.server_public_key;
          })
          now
unfolding accept_response
accept_response_lem s c r now rest fits type ok ip_fits id_fits size =
    let is_resp : (r.header.type == pkt_connect_resp) ≡ true = ground (arith, type) in
    let is_ok : (r.status == 0) ≡ true = ground (arith, ok) in
    rw
      (
        read_connect_response_lem r rest fits (omega (arith, ok)) ip_fits id_fits size,
        is_resp,
        is_ok,
      )
      refl

-- If the server's and the client's public keys belong to their private keys, the enclave's
-- handshake with the client's public key succeeds, and the client gets a well-formed response with
-- status 0 and the server's public key, then the client connects with the session key that the
-- enclave derived, and with the address and session of the response.
pub accept_response-perform_handshake :
    {s : Sodium} {public_of : Bytes → Bytes} (km : KeyManager) (c : VpnClient) (r : ConnectResponse)
    (ip now : ℕ) (rest key : Bytes)
    → ExchangeLaws s public_of
    → km.server_public_key ≡ public_of km.server_private_key
    → c.client_public_key ≡ public_of c.client_private_key
    → (perform_handshake s km ip c.client_public_key).1 ≡ some key
    → HeaderFits r.header
    → r.header.type ≡ pkt_connect_resp
    → r.status ≡ 0
    → r.vpn_ip < 2 ^ 32
    → r.session_id < 2 ^ 32
    → length r.server_public_key ≡ 32
    → r.server_public_key ≡ km.server_public_key
    → let result = accept_response s c (connect_response_bytes r ++ rest) now in
      (result.1 ≡ true)
      × (result.0.session_key ≡ key)
      × (result.0.vpn_ip ≡ r.vpn_ip)
      × (result.0.session_id ≡ htonl r.session_id)
accept_response-perform_handshake {s} {public_of} km c r ip now rest key laws server client shook
      fits type ok ip_fits id_fits size public =
    let (secret, agreed, derived) = handshake_secret s km ip c.client_public_key key shook in
    let mine : s.box_beforenm r.server_public_key c.client_private_key ≡ some secret =
      ap (λ k. s.box_beforenm k c.client_private_key) (public ∙ server)
      ∙ (laws.secret_comm c.client_private_key km.server_private_key
          ∙ (ap (λ k. s.box_beforenm k km.server_private_key) (sym client)
              ∙ unfold crypto_ecdh in agreed)) in
    rw (accept_response_lem s c r now rest fits type ok ip_fits id_fits size, ← derived)
      (agree_lem s
        (record c {
          vpn_ip = r.vpn_ip;
          session_id = htonl r.session_id;
          server_public_key = r.server_public_key;
        })
        now secret mine)

-- The server reads the client's public key out of the connection request, whatever the user name and
-- whatever the client's buffer of 2048 bytes held before.
pub connect_request-auth_token :
    (c : VpnClient) (clock : Timeval) (stale username rest : Bytes)
    → length stale ≡ packet_size
    → length c.client_public_key ≡ 32
    → (read_connect_request
        (connect_request_bytes (connect_request c clock stale username).0 ++ rest)).auth_token
      ≡ c.client_public_key
unfolding connect_request
connect_request-auth_token c clock stale username rest n size =
    let name : length (copy_string 31 username ++ take 1 (drop 47 stale)) ≡ 32 = omega (
      arith,
      length-append (copy_string 31 username) (take 1 (drop 47 stale)),
      length-append (take 31 username) (replicate (31 - length username) 0),
      length-take 31 username,
      length-replicate {A = ℕ} (31 - length username) 0,
      length-take 1 (drop 47 stale),
      length-drop 47 stale,
      n,
    ) in
    rw
      (
        take_all 32 c.client_public_key (omega (arith, size)),
        read_connect_request_lem
            (record {
              header = (init_vpn_header clock c.sequence pkt_connect_req 64).0;
              username = copy_string 31 username ++ take 1 (drop 47 stale);
              auth_token = c.client_public_key;
            })
            rest (init_vpn_header-HeaderFits clock c.sequence pkt_connect_req 64) name size,
      )
      refl
