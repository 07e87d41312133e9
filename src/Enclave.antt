-- ===== src/Enclave.antt =====
-- The enclave process: `handle_ipc_request` and the loop over one connection of `main` in
-- VPN/src/enclave/enclave_main.c. The IPC connection is a stream of bytes. `request_buffer` holds
-- 11 + 4096 bytes and the data part of `response_buffer` 4096; a copy beyond them is `fault`. Of the
-- random nonce and of what the stack held before, the caller gives the bytes.
pub mod Reference
pub mod Receive
pub mod Answer
pub mod Handle
pub mod Serve
pub mod Security
pub mod Program
use cloud_service.Base.{
  ℕ, ◌+◌, ◌-◌, ◌%◌, ◌^◌, Bool, true, false, Option, none, some, List, [], ◌∷◌, ◌++◌, ◌==◌, ltb,
  length, if◌then◌else◌, take, drop,
}
use cloud_service.Crypto.{Sodium, crypto_encrypt, crypto_decrypt}
use cloud_service.Ipc.{
  IpcRequest, IpcResponse, Command, ipc_command, ipc_max_data_size, request_size, read_request,
  response_bytes, status_ok, status_failed,
}
use cloud_service.Keys.{
  KeyManager, add_key, get_key, remove_key, get_server_public_key, perform_handshake,
}
use cloud_service.Wire.{Bytes, Run, fault, done, ◌>>=◌, blit, htons}

-- `km` and the flag `enclave_running`
pub record Enclave : Type 0 where
  pub manager : KeyManager
  pub running : Bool

-- One end of a connected stream socket: what has arrived and is not yet read, and what was sent.
-- A `broken` one fails every `recv`; at the end of the stream nothing is left to read.
pub record Stream : Type 0 where
  pub incoming : Bytes
  pub outgoing : Bytes
  pub broken : Bool

-- `recv(fd, buf, n, MSG_PEEK)`; `none` is -1
unfoldable pub recv_peek : ℕ → Stream → Option Bytes
recv_peek n k = if k.broken then none else some (take n k.incoming)

-- `recv(fd, buf, n, 0)`
unfoldable pub recv : ℕ → Stream → Option (Bytes × Stream)
recv n k =
    if k.broken then none else some (take n k.incoming, record k { incoming = drop n k.incoming })

-- `send(fd, buf, n, 0)`
unfoldable pub send : Bytes → Stream → Stream
send bytes k = record k { outgoing = k.outgoing ++ bytes }

abbrev pub request_capacity : ℕ
request_capacity = request_size + ipc_max_data_size

-- the second `recv`, of the header and the `data_len` bytes that it announces
unfoldable pub receive_full : ℕ → Stream → Run (Option IpcRequest × Stream)
unfolding recv
receive_full data_len k = elim (recv (request_size + data_len) k) [
  | none ↦ done (none, k)
  | some (got, k') ↦
      if ltb request_capacity (length got)
      then fault
      else if length got == request_size + data_len
      then done (some (read_request got), k')
      else done (none, k')
]

-- the handler up to the switch; `none` is an early return
unfoldable pub receive_request : Stream → Run (Option IpcRequest × Stream)
unfolding recv_peek receive_full
receive_request k = elim (recv_peek request_size k) [
  | none ↦ done (none, k)
  | some head ↦
      if ltb (length head) request_size
      then done (none, k)
      else receive_full (htons (read_request head).data_len) k
]

-- `resp` after a case of the switch: its `data` is the whole of the buffer behind the header.
abbrev pub respond : IpcRequest → ℕ → ℕ → Bytes → IpcResponse
respond req status data_len buffer = record {
  request_id = req.request_id;
  status = status;
  data_len = data_len;
  payload = buffer;
}

abbrev pub refuse : Enclave → IpcRequest → Bytes → Run (Enclave × IpcResponse)
refuse e req buffer = done (e, respond req status_failed 0 buffer)

unfoldable pub on_add_key : Enclave → IpcRequest → ℕ → Bytes → Run (Enclave × IpcResponse)
on_add_key e req data_len buffer =
    if data_len == 32
    then (let (km, added) = add_key e.manager req.vpn_ip req.payload in
        done (
          record e { manager = km },
          respond req (if added then status_ok else status_failed) 0 buffer,
        ))
    else refuse e req buffer

unfoldable pub on_remove_key : Enclave → IpcRequest → Bytes → Run (Enclave × IpcResponse)
on_remove_key e req buffer =
    done (record e { manager = remove_key e.manager req.vpn_ip }, respond req status_ok 0 buffer)

-- The first `sizeof(ipc_response_t) + ntohs(resp->data_len)` bytes of `response_buffer` are sent.
abbrev pub sent_bytes : IpcResponse → Bytes
sent_bytes r = response_bytes (record r { payload = take (htons r.data_len) r.payload })

abbrev pub send_response : Stream → Enclave × IpcResponse → Run (Enclave × Stream)
send_response k (e, resp) = done (e, send (sent_bytes resp) k)

-- One turn of the loop over an accepted connection: `select` says that the connection is ready, or
-- it timed out or failed. What is random in the turn is given with it.
pub record Turn : Type 0 where
  pub is_ready : Bool
  pub nonce : Bytes
  pub buffer : Bytes

-- `enclave_signal_handler`
abbrev pub enclave_signal_handler : Enclave → Enclave
enclave_signal_handler e = record e { running = false }

-- Where the loop over an accepted connection is after some turns: left, because `enclave_running` was
-- 0 at its test, or still in it.
pub data Progress : Type 0 where
  loop_left : Enclave → Stream → Progress
  still_serving : Enclave → Stream → Progress

-- A signal that comes then: the loop is left at its next test.
abbrev pub signalled : Progress → Enclave
signalled (loop_left e k) = e
signalled (still_serving e k) = enclave_signal_handler e

module _ (s : Sodium) where
  unfoldable pub on_encrypt : Bytes → Enclave → IpcRequest → ℕ → Bytes → Run (Enclave × IpcResponse)
  unfolding crypto_encrypt
  on_encrypt nonce e req data_len buffer = elim (get_key e.manager req.vpn_ip) [
    | none ↦ refuse e req buffer
    | some key ↦ blit buffer 0 nonce >>= λ with_nonce.
        elim (crypto_encrypt s (take data_len req.payload) key nonce) [
          | none ↦ refuse e req with_nonce
          | some c ↦ blit with_nonce 12 c >>= λ output.
              done (e, respond req status_ok (htons ((12 + data_len + 16) % 2 ^ 16)) output)
        ]
  ]

  unfoldable pub on_decrypt : Enclave → IpcRequest → ℕ → Bytes → Run (Enclave × IpcResponse)
  unfolding crypto_decrypt
  on_decrypt e req data_len buffer = elim (get_key e.manager req.vpn_ip) [
    | none ↦ refuse e req buffer
    | some key ↦
        if ltb data_len 28
        then refuse e req buffer
        else elim (crypto_decrypt s (drop 12 req.payload) key (take 12 req.payload)) [
          | none ↦ refuse e req buffer
          | some text ↦ blit buffer 0 text >>= λ output.
              done (e, respond req status_ok (htons ((data_len - 12 - 16) % 2 ^ 16)) output)
        ]
  ]

  unfoldable pub on_handshake : Enclave → IpcRequest → ℕ → Bytes → Run (Enclave × IpcResponse)
  on_handshake e req data_len buffer =
      if data_len == 32
      then (blit buffer 0 (get_server_public_key e.manager) >>= λ with_public.
          let (km, result) = perform_handshake s e.manager req.vpn_ip req.payload in
          elim result [
            | none ↦ refuse (record e { manager = km }) req with_public
            | some session_key ↦ blit with_public 32 session_key >>= λ output.
                done (record e { manager = km }, respond req status_ok (htons 64) output)
          ])
      else refuse e req buffer

  -- the cases of the switch
  unfoldable pub answer_command :
      Command → Bytes → Enclave → IpcRequest → ℕ → Bytes → Run (Enclave × IpcResponse)
  unfolding on_add_key on_remove_key on_encrypt on_decrypt on_handshake
  answer_command Command.ping nonce e req data_len buffer = done (e, respond req status_ok 0 buffer)
  answer_command Command.add_key nonce e req data_len buffer = on_add_key e req data_len buffer
  answer_command Command.remove_key nonce e req data_len buffer = on_remove_key e req buffer
  answer_command Command.encrypt nonce e req data_len buffer =
      on_encrypt nonce e req data_len buffer
  answer_command Command.decrypt nonce e req data_len buffer = on_decrypt e req data_len buffer
  answer_command Command.handshake nonce e req data_len buffer = on_handshake e req data_len buffer
  answer_command Command.shutdown nonce e req data_len buffer =
      done (record e { running = false }, respond req status_ok 0 buffer)
  answer_command Command.other nonce e req data_len buffer = refuse e req buffer

  -- a request that was received whole
  unfoldable pub answer : Bytes → Enclave → IpcRequest → Bytes → Run (Enclave × IpcResponse)
  unfolding answer_command ipc_command
  answer nonce e req buffer =
      answer_command (ipc_command req.command) nonce e req (htons req.data_len) buffer

  unfoldable pub handle_ipc_request : Bytes → Bytes → Enclave → Stream → Run (Enclave × Stream)
  unfolding send
  handle_ipc_request nonce buffer e k = receive_request k >>= λ (request, k'). elim request [
    | none ↦ done (e, k')
    | some req ↦ answer nonce e req buffer >>= send_response k'
  ]

  -- `while (enclave_running) { ... }` over a list of turns
  unfoldable pub serve : List Turn → Enclave → Stream → Run Progress
  serve [] e k = if e.running then done (still_serving e k) else done (loop_left e k)
  serve (t ∷ ts) e k =
      let turn : Run (Enclave × Stream) =
        if t.is_ready then handle_ipc_request t.nonce t.buffer e k else done (e, k) in
      let rest : Run Progress = turn >>= λ (e', k'). serve ts e' k' in
      if e.running then rest else done (loop_left e k)
