-- ===== src/Server.antt =====
-- The handlers and the event loop of the server: VPN/src/server/vpn_server.c. The process at the end
-- of the IPC connection is the parameter of EnclaveClient. A handler returns the server's new state
-- and the calls of `udp_send` and `write` it makes, in order; `fault` is a write past an array or
-- the use of a null pointer. `stale` is what the stack buffer of 2048 bytes held before.
pub mod Cases
pub mod Data
pub mod Sessions
pub mod Safety
pub mod Rounds
pub mod Replay
pub mod Connect
pub mod Program
pub mod Joint
use cloud_service.Base.{
  ℕ, ◌+◌, ◌-◌, ◌/◌, Bool, true, false, not, ◌&&◌, Option, none, some, List, [], ◌∷◌, ◌++◌, ◌==◌,
  ltb, leb, length, if◌then◌else◌, take, drop, get_or,
}
use cloud_service.Clients.{
  SockAddr, ClientEntry, ClientTable, find_client_by_addr, find_client_by_vpn_ip,
  update_client_activity, add_client, remove_client, check_client_timeouts,
}
use cloud_service.EnclaveClient.{
  Link, enclave_handshake, enclave_remove_key, enclave_encrypt, enclave_decrypt,
}
use cloud_service.Protocol.{
  VpnHeader, Timeval, ConnectRequest, ConnectResponse, pkt_connect_req, pkt_connect_resp, pkt_data,
  pkt_ping, pkt_pong, pkt_disconnect, header_size, connect_response_size, init_vpn_header,
  header_bytes, read_header, read_connect_request, connect_response_bytes,
}
use cloud_service.Wire.{Bytes, Run, fault, done, htonl, load32, ◌>>=◌}

-- `buffer`, `decrypted_buffer`, `encrypted_buffer` and `packet_buffer`
abbrev pub buffer_size : ℕ
buffer_size = 2048

pub record Server (P : Type 0) : Type 0 where
  pub table : ClientTable
  pub link : Link P
  pub sequence : ℕ

-- What one handler run reads from outside: `time(NULL)`, `rand()`, `gettimeofday`, and whether
-- `udp_send` gives a positive count.
pub record Moment : Type 0 where
  pub now : ℕ
  pub random : ℕ
  pub clock : Timeval
  pub sends : Bool

pub data Output : Type 0 where
  udp_sent : Bytes → SockAddr → Output
  tun_written : Bytes → Output

module _ {P : Type 0} (exchange : P → Bytes → Option (P × Bytes)) (m : Moment) where
  -- from `connect_response_t resp` on: a null `client` would be dereferenced
  unfoldable pub send_connect_response :
      Server P → SockAddr → ℕ → Bytes → Run (Server P × List Output)
  send_connect_response v addr vpn_ip server_public_key =
      let (header, next) =
        init_vpn_header m.clock v.sequence pkt_connect_resp (connect_response_size - header_size) in
      elim (find_client_by_addr v.table addr) [
        | none ↦ fault
        | some (i, client) ↦ done (
          record v { sequence = next },
          udp_sent
                (connect_response_bytes (record {
                  header = header;
                  status = 0;
                  vpn_ip = vpn_ip;
                  session_id = htonl client.session_id;
                  server_public_key = take 32 server_public_key;
                }))
                addr
              ∷ [],
        )
      ]

  unfoldable pub on_connect_req : Server P → Bytes → SockAddr → Run (Server P × List Output)
  on_connect_req v buffer addr =
      let (table, vpn_ip) = add_client v.table addr m.now m.random in
      if vpn_ip == 0
      then done (record v { table = table }, [])
      else (let (link, keys) =
            enclave_handshake exchange v.link vpn_ip (read_connect_request buffer).auth_token in
          elim keys [
            | none ↦ done (record v { table = remove_client table vpn_ip; link = link }, [])
            | some (server_public_key, session_key) ↦
                send_connect_response (record v { table = table; link = link }) addr vpn_ip
                  server_public_key
          ])

  -- `memcpy` into `decrypted_buffer`, and `write` to the interface
  abbrev pub write_plaintext : Server P → Option Bytes → Run (Server P × List Output)
  write_plaintext v none = done (v, [])
  write_plaintext v (some plaintext) =
      if ltb buffer_size (length plaintext) then fault else done (v, tun_written plaintext ∷ [])

  unfoldable pub on_data : Server P → Bytes → SockAddr → Run (Server P × List Output)
  on_data v ciphertext addr = elim (find_client_by_addr v.table addr) [
    | none ↦ done (v, [])
    | some (i, client) ↦
        let table = update_client_activity v.table (i, client) m.now in
        let (link, plaintext) = enclave_decrypt exchange v.link client.vpn_ip ciphertext in
        write_plaintext (record v { table = table; link = link }) plaintext
  ]

  unfoldable pub on_ping : Server P → SockAddr → Run (Server P × List Output)
  on_ping v addr =
      let table : ClientTable = elim (find_client_by_addr v.table addr) [
        | none ↦ v.table
        | some client ↦ update_client_activity v.table client m.now
      ] in
      let (pong, next) = init_vpn_header m.clock v.sequence pkt_pong 0 in
      done (record v { table = table; sequence = next }, udp_sent (header_bytes pong) addr ∷ [])

  unfoldable pub on_disconnect : Server P → SockAddr → Run (Server P × List Output)
  on_disconnect v addr = elim (find_client_by_addr v.table addr) [
    | none ↦ done (v, [])
    | some (i, client) ↦
        let (link, removed) = enclave_remove_key exchange v.link client.vpn_ip in
        done (record v { table = remove_client v.table client.vpn_ip; link = link }, [])
  ]

  -- the `switch`: `n` bytes of `buffer` were received
  unfoldable pub on_packet : Server P → Bytes → ℕ → SockAddr → Run (Server P × List Output)
  on_packet v buffer n addr =
      let type = (read_header buffer).type in
      if type == pkt_connect_req
      then on_connect_req v buffer addr
      else if type == pkt_data
      then on_data v (drop header_size (take n buffer)) addr
      else if type == pkt_ping
      then on_ping v addr
      else if type == pkt_disconnect
      then on_disconnect v addr
      else done (v, [])

  -- `received` is what `udp_recv` gives: a datagram is cut to the buffer; `none` is an error.
  unfoldable pub handle_udp_to_tun :
      Server P → Bytes → Option (Bytes × SockAddr) → Run (Server P × List Output)
  handle_udp_to_tun v stale none = done (v, [])
  handle_udp_to_tun v stale (some (datagram, addr)) =
      let got = take buffer_size datagram in
      if ltb (length got) header_size
      then done (v, [])
      else on_packet v (got ++ drop (length got) stale) (length got) addr

  -- from `data_packet_t *pkt` on; `client` is the entry at `i`
  unfoldable pub send_data :
      Server P → ℕ × ClientEntry → Option Bytes → Run (Server P × List Output)
  send_data v client none = done (v, [])
  send_data v client (some ciphertext) =
      let (header, next) = init_vpn_header m.clock v.sequence pkt_data (length ciphertext) in
      let table = if m.sends then update_client_activity v.table client m.now else v.table in
      if ltb buffer_size (header_size + length ciphertext)
      then fault
      else done (
        record v { table = table; sequence = next },
        udp_sent (header_bytes header ++ ciphertext) client.1.real_addr ∷ [],
      )

  -- `packet` is what `read` gives; `none` is an error. `version` is the high half of the first byte.
  unfoldable pub handle_tun_to_udp : Server P → Option Bytes → Run (Server P × List Output)
  handle_tun_to_udp v none = done (v, [])
  handle_tun_to_udp v (some packet) =
      let buffer = take buffer_size packet in
      if ltb (length buffer) 20
      then done (v, [])
      else if get_or buffer 0 0 / 16 == 6
      then done (v, [])
      else elim (find_client_by_vpn_ip v.table (load32 buffer 16)) [
        | none ↦ done (v, [])
        | some (i, client) ↦
            let (link, ciphertext) = enclave_encrypt exchange v.link client.vpn_ip buffer in
            send_data (record v { link = link }) (i, client) ciphertext
      ]

-- What `select` gives in one round of the event loop, with what the round reads.
pub data Activity : Type 0 where
  select_failed : Activity
  timed_out : (now : ℕ) → (enclave_alive : Bool) → Activity
  readable : (udp : Option (Option (Bytes × SockAddr))) → (tun : Option (Option Bytes)) → Activity

pub record Loop (P : Type 0) : Type 0 where
  pub server : Server P
  pub last_timeout_check : ℕ
  pub outputs : List Output
  pub leaving : Bool

module _ {P : Type 0} (exchange : P → Bytes → Option (P × Bytes)) where
  -- one handler's part of a round
  abbrev pub served : Loop P → Run (Server P × List Output) → Run (Loop P)
  served l fault = fault
  served l (done (v, outputs)) = done (record l { server = v; outputs = l.outputs ++ outputs })

  abbrev pub serve_udp : Moment → Bytes → Loop P → Option (Option (Bytes × SockAddr)) → Run (Loop P)
  serve_udp m stale l none = done l
  serve_udp m stale l (some received) =
      served l (handle_udp_to_tun exchange m l.server stale received)

  abbrev pub serve_tun : Moment → Loop P → Option (Option Bytes) → Run (Loop P)
  serve_tun m l none = done l
  serve_tun m l (some packet) = served l (handle_tun_to_udp exchange m l.server packet)

  abbrev pub check_timeouts : Loop P → ℕ → Loop P
  check_timeouts l now =
      if leb (l.last_timeout_check + 30) now
      then record l {
        server = record l.server { table = check_client_timeouts l.server.table now };
        last_timeout_check = now;
      }
      else l

  -- one round of `while (running)`
  unfoldable pub event_loop_round : Moment → Bytes → Loop P → Activity → Run (Loop P)
  event_loop_round m stale l select_failed = done (record l { leaving = true })
  event_loop_round m stale l (timed_out now alive) =
      done (record (check_timeouts l now) { leaving = not alive })
  event_loop_round m stale l (readable udp tun) =
      serve_udp m stale l udp >>= (λ l'. serve_tun m l' tun)
