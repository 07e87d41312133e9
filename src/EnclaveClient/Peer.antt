-- ===== src/EnclaveClient/Peer.antt =====
-- The enclave of Enclave as the process at the other end of the server's link.
use cloud_service.Base.{
  ℕ, ◌+◌, ◌%◌, ◌^◌, ◌<◌, ◌≤◌, ◌≡◌, ap, sym, ◌∙◌, true, false, Option, none, some, [], length, arith,
  if◌then◌else◌,
}
use mathlib.Core.List.{append-nil}
use cloud_service.Crypto.{Sodium, AeadLaws, ExchangeLaws}
use cloud_service.Enclave.{Enclave, Stream, handle_ipc_request}
use cloud_service.Enclave.Answer.{Setting}
use cloud_service.Enclave.Handle.{RoomFor, handle_ipc_request_lem}
use cloud_service.Enclave.Reference.{reference, reference_command, reply_to}
use cloud_service.EnclaveClient.{Link, send_ipc_request, call}
use cloud_service.EnclaveClient.Replies.{told, size_of, receive_reply}
use cloud_service.Ipc.{
  IpcRequest, ipc_command, ipc_max_data_size, response_size, request_bytes, response_bytes,
  init_ipc_request,
}
use cloud_service.Ipc.RoundTrip.{init_ipc_request-RequestFits, init_ipc_request_lem}
use cloud_service.Keys.Invariant
use cloud_service.Wire.{Bytes, Run, fault, done, htons, htonl}

-- The process after one request: `fault` is a process that has crashed.
abbrev pub after_request : Run (Enclave × Stream) → Run Enclave × Bytes
after_request fault = (fault, [])
after_request (done (e, k)) = (done e, k.outgoing)

-- The request arrives, `select` wakes the loop, the handler runs, and the loop waits again. A
-- process that has crashed or stopped takes no request.
unfoldable pub enclave_exchange :
    Sodium → Bytes → Bytes → Run Enclave → Bytes → Option (Run Enclave × Bytes)
enclave_exchange s nonce buffer fault bytes = none
enclave_exchange s nonce buffer (done e) bytes =
    if e.running
    then some (
        after_request (
          handle_ipc_request s nonce buffer e
            (record { incoming = bytes; outgoing = []; broken = false })))
    else none

-- An enclave that waits for a request, with the buffer and the nonce of its next answer.
pub record Ready (s : Sodium) (public_of : Bytes → Bytes) (nonce buffer : Bytes) (e : Enclave)
    : Type 0 where
  pub aead : AeadLaws s
  pub exchange : ExchangeLaws s public_of
  pub table : Invariant.IsValid e.manager
  pub nonce_size : length nonce ≡ 12
  pub buffer_size : length buffer ≡ ipc_max_data_size
  pub running : e.running ≡ true

-- The link of a server that has read all that the enclave sent.
abbrev pub link_to : Enclave → ℕ → Link (Run Enclave)
link_to e id = record { peer = done e; unread = []; request_id = id }

module _ {s : Sodium} {public_of : Bytes → Bytes} {nonce buffer : Bytes} {e : Enclave}
    (w : Ready s public_of nonce buffer e) where
  exchanged :
      (req : IpcRequest)
      → Setting s public_of nonce e req buffer
      → RoomFor (ipc_command req.command) (length req.payload)
      → enclave_exchange s nonce buffer (done e) (request_bytes req)
        ≡ some (
          done (reference s nonce e req).0,
          response_bytes (reply_to req.request_id (reference s nonce e req).1),
        )
  unfolding enclave_exchange
  exchanged req set room =
      let got = λ (b : Bytes).
        handle_ipc_request s nonce buffer e
          (record { incoming = b; outgoing = []; broken = false }) in
      ap (λ b. if b then some (after_request (got (request_bytes req))) else none) w.running
      ∙ (ap (λ b. some (after_request (got b))) (sym (append-nil (request_bytes req)))
          ∙ ap (λ r. some (after_request r))
              (handle_ipc_request_lem [] (record { incoming = []; outgoing = []; broken = false })
                set room))

  send_lem :
      (req : IpcRequest) (id resp_max_len : ℕ)
      → Setting s public_of nonce e req buffer
      → RoomFor (ipc_command req.command) (length req.payload)
      → response_size + size_of (reference s nonce e req).1 ≤ resp_max_len
      → resp_max_len ≤ response_size + ipc_max_data_size
      → send_ipc_request (enclave_exchange s nonce buffer) (link_to e id) req resp_max_len
        ≡ (link_to (reference s nonce e req).0 id, told req.request_id (reference s nonce e req).1)
  unfolding send_ipc_request
  send_lem req id resp_max_len set room fits bounded =
      rw (exchanged req set room, send_ipc_request)
        (receive_reply (link_to (reference s nonce e req).0 id) req.request_id
          (reference s nonce e req).1 resp_max_len set.fits.request_id_fits (omega arith) fits)

  -- A call of at most 4096 bytes (4068, to encrypt), whose answer fits the caller's buffer: the
  -- enclave becomes what the reference says, and the caller is told the reference's answer.
  pub call_lem :
      (command ip : ℕ) (bytes : Bytes) (id resp_max_len : ℕ)
      → command < 2 ^ 8
      → ip < 2 ^ 32
      → length bytes ≤ ipc_max_data_size
      → RoomFor (ipc_command command) (length bytes)
      → response_size + size_of (reference_command s (ipc_command command) nonce e ip bytes).1
        ≤ resp_max_len
      → resp_max_len ≤ response_size + ipc_max_data_size
      → call
          (enclave_exchange s nonce buffer)
          (link_to e id)
          command
          ip
          bytes
          (length bytes)
          resp_max_len
        ≡ (
          link_to
              (reference_command s (ipc_command command) nonce e ip bytes).0
              ((id + 1) % 2 ^ 32),
          told
              (htonl ((id + 1) % 2 ^ 32))
              (reference_command s (ipc_command command) nonce e ip bytes).1,
        )
  unfolding call reference
  call_lem command ip bytes id resp_max_len hc hi small room fits bounded =
      let req : IpcRequest = record {
        command = command;
        request_id = htonl ((id + 1) % 2 ^ 32);
        vpn_ip = ip;
        data_len = htons (length bytes);
        payload = bytes;
      } in
      let made : init_ipc_request id command ip bytes (length bytes) ≡ (req, (id + 1) % 2 ^ 32) =
        init_ipc_request_lem id command ip bytes (omega arith) in
      rw made (
        send_lem req ((id + 1) % 2 ^ 32) resp_max_len
          (record {
            aead = w.aead;
            exchange = w.exchange;
            table = w.table;
            nonce_size = w.nonce_size;
            fits =
                rw made at (init_ipc_request-RequestFits id command ip bytes hc hi (omega arith));
            small = small;
            buffer_size = w.buffer_size;
          })
          room fits bounded)
