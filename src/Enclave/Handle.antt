-- ===== src/Enclave/Handle.antt =====
-- The whole handler, from the bytes on the socket to the bytes on the socket.
use cloud_service.Base.{
  ℕ, ◌+◌, ◌<◌, ◌≤◌, ◌≡◌, ◌≢◌, refl, false, Option, none, inl, inr, ◌++◌, length, arith, drop,
  length-append, length-drop, take_all, Option-cases,
}
use cloud_service.Crypto.{Sodium, crypto_encrypt}
use cloud_service.Enclave.{
  Enclave, Stream, answer, answer_command, on_encrypt, on_remove_key, handle_ipc_request, send,
  send_response,
}
use cloud_service.Enclave.Answer.{
  Answers, Setting, answer_refused, answer_empty, answer_encrypt, answer_decrypt, answer_add_key,
  answer_handshake,
}
use cloud_service.Enclave.Receive.{with_request, receive_request_lem}
use cloud_service.Enclave.Reference.{reference, reference_command, reply_to}
use cloud_service.Ipc.{
  Command, IpcRequest, IpcResponse, ipc_command, ipc_max_data_size, response_bytes,
}
use cloud_service.Keys.{get_key}
use cloud_service.Wire.{Bytes, Run, fault, done, ◌>>=◌, blit_start, blit_fault, htons}

-- What an `encrypt` request may carry, so that nonce and tag still fit into the response.
abbrev pub RoomFor : Command → ℕ → Type 0
RoomFor Command.encrypt n = n + 28 ≤ ipc_max_data_size
RoomFor _ n = Unit {0}

module _ {s : Sodium} {public_of : Bytes → Bytes} {nonce : Bytes} {e : Enclave} {req : IpcRequest}
    {buffer : Bytes} (w : Setting s public_of nonce e req buffer) where
  answer_command_refines :
      (c : Command)
      → RoomFor c (length req.payload)
      → Answers req.request_id
          (answer_command s c nonce e req (htons req.data_len) buffer)
          (reference_command s c nonce e req.vpn_ip req.payload)
  unfolding answer_command reference_command on_remove_key
  answer_command_refines Command.ping room = answer_empty req e buffer
  answer_command_refines Command.encrypt room = answer_encrypt w room
  answer_command_refines Command.decrypt room = answer_decrypt w
  answer_command_refines Command.add_key room = answer_add_key w
  answer_command_refines Command.remove_key room = answer_empty req _ buffer
  answer_command_refines Command.handshake room = answer_handshake w
  answer_command_refines Command.shutdown room = answer_empty req _ buffer
  answer_command_refines Command.other room = answer_refused req e buffer

  pub answer_refines :
      RoomFor (ipc_command req.command) (length req.payload)
      → Answers req.request_id (answer s nonce e req buffer) (reference s nonce e req)
  unfolding answer reference
  answer_refines room = answer_command_refines (ipc_command req.command) room

-- The handler's end, by what the switch gave.
send_answer :
    (s : Sodium) (id : ℕ) (r : Run (Enclave × IpcResponse)) (expected : Enclave × Option Bytes)
    (k : Stream)
    → Answers id r expected
    → (r >>= send_response k) ≡ done (expected.0, send (response_bytes (reply_to id expected.1)) k)
send_answer s id fault (e', d) k h = absurd h
send_answer s id (done (e, resp)) (e', d) k h = rw (h.0, h.1) refl

-- A request whose fields fit, of at most 4096 bytes (4068, to encrypt), that stands on the socket
-- is taken off it, the enclave's state becomes the reference's, and exactly the reference's
-- response is sent: its request id, its status, its length and its data. No byte leaves the
-- buffers, and what follows the request stays.
pub handle_ipc_request_lem :
    {s : Sodium} {public_of : Bytes → Bytes} {nonce : Bytes} {e : Enclave} {req : IpcRequest}
    {buffer : Bytes} (rest : Bytes) (k : Stream)
    → Setting s public_of nonce e req buffer
    → RoomFor (ipc_command req.command) (length req.payload)
    → handle_ipc_request s nonce buffer e (with_request req rest k)
      ≡ done (
        (reference s nonce e req).0,
        record {
          incoming = rest;
          outgoing =
              k.outgoing ++ response_bytes (reply_to req.request_id (reference s nonce e req).1);
          broken = false;
        },
      )
unfolding handle_ipc_request
handle_ipc_request_lem {s} {nonce = nonce} {e = e} {req = req} {buffer = buffer} rest k w room =
    rw (receive_request_lem req rest k w.fits w.small) (
      unfold send in
      send_answer s req.request_id (answer s nonce e req buffer) (reference s nonce e req)
        (record k { incoming = rest; broken = false }) (answer_refines w room))

-- A request to encrypt 4069 to 4096 bytes for an address that has a key is answered past the end of
-- `response_buffer`.
pub answer_encrypt_overflow :
    {s : Sodium} {public_of : Bytes → Bytes} {nonce : Bytes} {e : Enclave} {req : IpcRequest}
    {buffer : Bytes}
    → Setting s public_of nonce e req buffer
    → ipc_command req.command ≡ Command.encrypt
    → ipc_max_data_size < length req.payload + 28
    → get_key e.manager req.vpn_ip ≢ none
    → answer s nonce e req buffer ≡ fault
unfolding answer answer_command on_encrypt
answer_encrypt_overflow {s} {nonce = nonce} {e = e} {req = req} {buffer = buffer} w command large
      known =
    elim (Option-cases (get_key e.manager req.vpn_ip)) [
      | inl unknown ↦ absurd (known unknown)
      | inr (key, here) ↦
          rw
            (
              command,
              answer_command,
              here,
              on_encrypt,
              w.fits.counted,
              take_all (length req.payload) req.payload (omega arith),
              blit_start buffer nonce (omega (arith, w.nonce_size, w.buffer_size)),
            )
            (elim (Option-cases (crypto_encrypt s req.payload key nonce)) [
              | inl failed ↦
                  absurd (
                    w.aead.encrypt_succeeds key nonce req.payload (unfold crypto_encrypt in failed))
              | inr (c, sealed) ↦
                  rw
                    (
                      sealed,
                      blit_fault (nonce ++ drop (length nonce) buffer) c 12 (
                          omega (
                            arith,
                            length-append nonce (drop (length nonce) buffer),
                            length-drop (length nonce) buffer,
                            w.buffer_size,
                            w.nonce_size,
                            w.aead.encrypt_length key nonce req.payload c
                                (unfold crypto_encrypt in sealed),
                          )),
                    )
                    refl
            ])
    ]
