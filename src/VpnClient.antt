-- ===== src/VpnClient.antt =====
-- The VPN client: VPN/src/client/vpn_client.c. `client->config` is an argument. What the sockets and the interface give, the clock and the nonce
-- are arguments too, as is what a stack buffer of 2048 bytes held before; `fault` is an access past
-- an array.
pub mod Agreement
pub mod EndToEnd
pub mod Program
use cloud_service.Base.{
  ℕ, suc, ◌+◌, ◌-◌, ◌*◌, ◌%◌, ◌^◌, Bool, true, false, not, Option, none, some, List, [], ◌∷◌, ◌++◌,
  ◌==◌, ltb, leb, length, if◌then◌else◌, take, drop, replicate,
}
use cloud_service.Crypto.{
  Sodium, crypto_encrypt, crypto_decrypt, crypto_ecdh, crypto_key_size, crypto_nonce_size,
  crypto_mac_size, session_context,
}
use cloud_service.Protocol.{
  VpnHeader, Timeval, ConnectRequest, ConnectResponse, pkt_connect_req, pkt_connect_resp, pkt_data,
  pkt_ping, pkt_pong, header_size, connect_request_size, init_vpn_header, header_bytes, read_header,
  connect_request_bytes, read_connect_response,
}
use cloud_service.Text.Numbers.{ℤ, pos, negsuc}
use cloud_service.Wire.{Bytes, Run, fault, done, htonl}

-- The fields of `vpn_client_t` but the descriptors, and `global_sequence`.
pub record VpnClient : Type 0 where
  pub client_private_key : Bytes
  pub client_public_key : Bytes
  pub server_public_key : Bytes
  pub session_key : Bytes
  pub vpn_ip : ℕ
  pub session_id : ℕ
  pub connected : Bool
  pub last_ping_sent : ℕ
  pub last_pong_received : ℕ
  pub reconnect_attempts : ℕ
  pub backoff_seconds : ℕ
  pub sequence : ℕ

abbrev pub packet_size : ℕ
packet_size = 2048

abbrev pub initial_backoff : ℕ
initial_backoff = 1

-- `strncpy` of a string of these bytes, without its end mark, into `n` bytes
abbrev pub copy_string : ℕ → Bytes → Bytes
copy_string n s = take n s ++ replicate (n - length s) 0

-- The request and the new sequence number. The last byte of the user name is what the buffer held.
unfoldable pub connect_request : VpnClient → Timeval → Bytes → Bytes → ConnectRequest × ℕ
connect_request c clock stale username =
    let (header, next) =
      init_vpn_header clock c.sequence pkt_connect_req (connect_request_size - header_size) in
    (
      record {
        header = header;
        username = copy_string 31 username ++ take 1 (drop 47 stale);
        auth_token = take 32 c.client_public_key;
      },
      next,
    )

module _ (s : Sodium) where
  -- from `crypto_ecdh` on
  unfoldable pub agree : VpnClient → ℕ → VpnClient × Bool
  agree c now = elim (crypto_ecdh s c.client_private_key c.server_public_key) [
    | none ↦ (c, false)
    | some shared_secret ↦ (
      record c {
        session_key = s.kdf_derive_from_key 32 1 session_context shared_secret;
        connected = true;
        reconnect_attempts = 0;
        backoff_seconds = initial_backoff;
        last_pong_received = now;
        last_ping_sent = now;
      },
      true,
    )
  ]

  -- from `connect_response_t *resp` on; the number of received bytes is not looked at
  unfoldable pub accept_response : VpnClient → Bytes → ℕ → VpnClient × Bool
  accept_response c buffer now =
      let resp = read_connect_response buffer in
      if not (resp.header.type == pkt_connect_resp)
      then (c, false)
      else if not (resp.status == 0)
      then (c, false)
      else agree
          (record c {
            vpn_ip = resp.vpn_ip;
            session_id = htonl resp.session_id;
            server_public_key = resp.server_public_key;
          })
          now

  -- With a socket made. The second part is the datagram that was sent, if `sendto` succeeds, and
  -- `received` what then arrives in time.
  unfoldable pub vpn_connect :
      VpnClient
      → Timeval
      → ℕ
      → Bytes
      → Bytes
      → Bool
      → Option Bytes
      → VpnClient × Option Bytes × Bool
  vpn_connect c clock now stale username sends received =
      let (req, next) = connect_request c clock stale username in
      let buffer = connect_request_bytes req ++ drop connect_request_size stale in
      let c' : VpnClient = record c { sequence = next } in
      if not sends then (c', none, false) else elim received [
        | none ↦ (c', some (connect_request_bytes req), false)
        | some datagram ↦
            let got = take packet_size datagram in
            let (c'', connected) = accept_response c' (got ++ drop (length got) buffer) now in
            (c'', some (connect_request_bytes req), connected)
      ]

  -- `ciphertext_len - CRYPTO_NONCE_SIZE` is of type `size_t`: with fewer than 12 bytes it wraps round
  -- and libsodium reads past the buffer. The second part of the result is what `write` is given.
  unfoldable pub on_data : VpnClient → Bytes → Run (VpnClient × Option Bytes)
  on_data c ciphertext =
      let encrypted = drop crypto_nonce_size ciphertext in
      if ltb (length ciphertext) crypto_nonce_size
      then fault
      else elim (crypto_decrypt s encrypted c.session_key (take crypto_nonce_size ciphertext)) [
        | none ↦ done (c, none)
        | some plaintext ↦
            if ltb packet_size (length plaintext)
            then fault
            else done (c, some (take (length encrypted - crypto_mac_size) plaintext))
      ]

  unfoldable pub handle_udp_to_tun : VpnClient → ℕ → Option Bytes → Run (VpnClient × Option Bytes)
  handle_udp_to_tun c now none = done (c, none)
  handle_udp_to_tun c now (some datagram) =
      let got = take packet_size datagram in
      if ltb (length got) header_size
      then done (c, none)
      else if (read_header got).type == pkt_pong
      then done (record c { last_pong_received = now }, none)
      else if (read_header got).type == pkt_data
      then on_data c (drop header_size got)
      else done (c, none)

  -- The second part of the result is the datagram that `sendto` is given.
  unfoldable pub handle_tun_to_udp :
      VpnClient → Timeval → Bytes → Option Bytes → Run (VpnClient × Option Bytes)
  handle_tun_to_udp c clock nonce none = done (c, none)
  handle_tun_to_udp c clock nonce (some packet) =
      let buffer = take packet_size packet in
      elim (crypto_encrypt s buffer c.session_key nonce) [
        | none ↦ done (c, none)
        | some encrypted ↦
            let ciphertext_len = crypto_nonce_size + (length buffer + crypto_mac_size) in
            let (header, next) = init_vpn_header clock c.sequence pkt_data ciphertext_len in
            if ltb packet_size (crypto_nonce_size + length encrypted)
            then fault
            else if ltb packet_size (header_size + ciphertext_len)
            then fault
            else done (
              record c { sequence = next },
              some (header_bytes header ++ take ciphertext_len (nonce ++ encrypted)),
            )
      ]

-- The datagram, which `sendto` accepts if `sends` holds.
unfoldable pub send_ping : VpnClient → Timeval → ℕ → Bool → VpnClient × Bytes
send_ping c clock now sends =
    let (ping, next) = init_vpn_header clock c.sequence pkt_ping 0 in
    (
      record c { sequence = next; last_ping_sent = if sends then now else c.last_ping_sent },
      header_bytes ping,
    )

-- `now - last > limit` and `now - last >= limit`, on signed `time_t`
abbrev pub is_longer : ℕ → ℕ → ℤ → Bool
is_longer now last (pos n) = ltb (last + n) now
is_longer now last (negsuc n) = ltb last (now + suc n)

abbrev pub is_as_long : ℕ → ℕ → ℤ → Bool
is_as_long now last (pos n) = leb (last + n) now
is_as_long now last (negsuc n) = leb last (now + suc n)

-- `none` is the return value -1; `some` is 0 with the PING, if one is due.
unfoldable pub check_keepalive :
    ℤ → ℤ → VpnClient → Timeval → ℕ → Bool → VpnClient × Option (Option Bytes)
check_keepalive pong_timeout keepalive_interval c clock now sends =
    if is_longer now c.last_pong_received pong_timeout
    then (c, none)
    else if is_as_long now c.last_ping_sent keepalive_interval
    then (let (c', ping) = send_ping c clock now sends in (c', some (some ping)))
    else (c, some none)
