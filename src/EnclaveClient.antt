-- ===== src/EnclaveClient.antt =====
-- The server's end of the IPC connection: VPN/src/server/enclave_client.c. The process at the other
-- end is a parameter: `exchange p bytes` is what it becomes on receiving the bytes and what it sends
-- back before it waits again (`none`: the `send` fails). `recv` waits for that; a process that sends
-- nothing and never closes would keep the server waiting, which is not modelled.
pub mod Replies
pub mod Peer
pub mod Calls
pub mod RoundTrip
use cloud_service.Base.{
  ℕ, ◌+◌, Bool, true, false, not, Option, none, some, List, [], ◌++◌, ◌==◌, ltb, length,
  if◌then◌else◌, take, drop,
}
use cloud_service.Ipc.{
  IpcRequest, IpcResponse, ipc_ping, ipc_encrypt, ipc_decrypt, ipc_add_key, ipc_remove_key,
  ipc_handshake, ipc_shutdown, ipc_max_data_size, response_size, request_bytes, read_response,
  init_ipc_request,
}
use cloud_service.Wire.{Bytes, htons}

-- The process at the other end, what has arrived from it and is not yet read, and
-- `global_request_id`.
pub record Link (P : Type 0) : Type 0 where
  pub peer : P
  pub unread : Bytes
  pub request_id : ℕ

abbrev pub succeeded : Option IpcResponse → Bool
succeeded none = false
succeeded (some r) = true

-- the server's public key and the session key, out of the response's data
abbrev pub two_keys : Option IpcResponse → Option (Bytes × Bytes)
two_keys none = none
two_keys (some r) = some (take 32 r.payload, take 32 (drop 32 r.payload))

-- the bytes that `memcpy(out, resp->data, *out_len)` writes
abbrev pub copied_out : Option IpcResponse → Option Bytes
copied_out none = none
copied_out (some r) = some (take (htons r.data_len) r.payload)

module _ {P : Type 0} where
  -- `recv(enclave_fd, resp, total_len, 0)` and the checks of what it gave
  unfoldable pub receive_whole : Link P → ℕ → Link P × Option IpcResponse
  receive_whole l total_len =
      let got = take total_len l.unread in
      let rest : Link P = record l { unread = drop total_len l.unread } in
      if not (length got == total_len)
      then (rest, none)
      else if (read_response got).status == 0
      then (rest, some (read_response got))
      else (rest, none)

  -- from `recv(..., MSG_PEEK)` on; a response that is too large stays unread
  unfoldable pub receive_response : Link P → ℕ → Link P × Option IpcResponse
  unfolding receive_whole
  receive_response l resp_max_len =
      let head = take response_size l.unread in
      let total_len = response_size + htons (read_response head).data_len in
      if ltb (length head) response_size
      then (l, none)
      else if ltb resp_max_len total_len
      then (l, none)
      else receive_whole l total_len

module _ {P : Type 0} (exchange : P → Bytes → Option (P × Bytes)) where
  -- `none` is the return value -1.
  unfoldable pub send_ipc_request : Link P → IpcRequest → ℕ → Link P × Option IpcResponse
  unfolding receive_response
  send_ipc_request l req resp_max_len = elim (exchange l.peer (request_bytes req)) [
    | none ↦ (l, none)
    | some (p, reply) ↦
        receive_response (record l { peer = p; unread = l.unread ++ reply }) resp_max_len
  ]

  -- `init_ipc_request`, then `send_ipc_request`
  unfoldable pub call : Link P → ℕ → ℕ → Bytes → ℕ → ℕ → Link P × Option IpcResponse
  unfolding send_ipc_request
  call l command vpn_ip bytes data_len resp_max_len =
      let (req, next) = init_ipc_request l.request_id command vpn_ip bytes data_len in
      send_ipc_request (record l { request_id = next }) req resp_max_len

  unfoldable pub enclave_ping : Link P → Link P × Bool
  enclave_ping l = let (l', r) = call l ipc_ping 0 [] 0 response_size in (l', succeeded r)

  unfoldable pub enclave_add_key : Link P → ℕ → Bytes → Link P × Bool
  enclave_add_key l vpn_ip session_key =
      let (l', r) = call l ipc_add_key vpn_ip (take 32 session_key) 32 response_size in
      (l', succeeded r)

  unfoldable pub enclave_remove_key : Link P → ℕ → Link P × Bool
  enclave_remove_key l vpn_ip =
      let (l', r) = call l ipc_remove_key vpn_ip [] 0 response_size in (l', succeeded r)

  unfoldable pub enclave_handshake : Link P → ℕ → Bytes → Link P × Option (Bytes × Bytes)
  enclave_handshake l vpn_ip client_public_key =
      let (l', r) =
        call l ipc_handshake vpn_ip (take 32 client_public_key) 32 (response_size + 64) in
      (l', two_keys r)

  unfoldable pub enclave_encrypt : Link P → ℕ → Bytes → Link P × Option Bytes
  enclave_encrypt l vpn_ip plaintext =
      if ltb ipc_max_data_size (length plaintext)
      then (l, none)
      else (let (l', r) =
            call l ipc_encrypt vpn_ip plaintext (length plaintext)
              (response_size + ipc_max_data_size) in
          (l', copied_out r))

  unfoldable pub enclave_decrypt : Link P → ℕ → Bytes → Link P × Option Bytes
  enclave_decrypt l vpn_ip ciphertext =
      if ltb ipc_max_data_size (length ciphertext)
      then (l, none)
      else (let (l', r) =
            call l ipc_decrypt vpn_ip ciphertext (length ciphertext)
              (response_size + ipc_max_data_size) in
          (l', copied_out r))

  unfoldable pub enclave_shutdown : Link P → Link P × Bool
  enclave_shutdown l = let (l', r) = call l ipc_shutdown 0 [] 0 response_size in (l', succeeded r)
