-- ===== src/Enclave/Answer.antt =====
-- The answers of the enclave against the reference's.
use mathlib.Core.Option
use mathlib.Core.List.{append_assoc}
use cloud_service.Base.{
  ℕ, ◌+◌, ◌-◌, ◌%◌, ◌^◌, ◌<◌, ◌≤◌, ◌≡◌, refl, Option, none, some, [], ◌++◌, ◌==◌, ltb, length,
  arith, inl, inr, take, drop, take_all, length-take, length-append, length-drop, take-append,
  ltb→le, Bool-cases, Option-cases,
}
use cloud_service.Crypto.{Sodium, AeadLaws, ExchangeLaws}
use cloud_service.Enclave.{
  Enclave, on_add_key, on_encrypt, on_decrypt, on_handshake, respond, sent_bytes,
}
use cloud_service.Enclave.Reference.{seal, unseal, exchange_keys, reference_command, reply_to}
use cloud_service.Ipc.{
  Command, IpcRequest, IpcResponse, ipc_max_data_size, response_bytes, init_ipc_response, status_ok,
  status_failed,
}
use cloud_service.Ipc.RoundTrip.{RequestFits}
use cloud_service.Keys.{KeyManager, add_key, get_key, get_server_public_key, perform_handshake}
use cloud_service.Keys.Invariant
use cloud_service.Keys.Invariant.{length-perform_handshake}
use cloud_service.Wire.{
  Bytes, Run, fault, done, ◌>>=◌, blit, blit_start, blit_next, htons, htons-htons,
}

-- The handler gives its result in a buffer; the reference gives the data itself. They agree on the
-- next state and on every byte sent.
abbrev pub Answers : ℕ → Run (Enclave × IpcResponse) → Enclave × Option Bytes → Type 0
Answers id fault expected = ⊥
Answers id (done (e, r)) (e', data') =
    (e ≡ e') × (sent_bytes r ≡ response_bytes (reply_to id data'))

-- Data `xs` at the start of the buffer, with its length in `data_len`.
answer_data :
    (req : IpcRequest) (e : Enclave) (xs rest : Bytes) (n : ℕ)
    → length xs ≡ n
    → n < 2 ^ 16
    → Answers req.request_id
        (done (e, respond req status_ok (htons (n % 2 ^ 16)) (xs ++ rest)))
        (e, some xs)
unfolding init_ipc_response
answer_data req e xs rest n h small =
    let m : n % 2 ^ 16 ≡ n = omega arith in
    let l : length xs % 2 ^ 16 ≡ n = omega arith in
    (
      refl,
      rw (m, l, htons-htons n small, take-append n xs rest h, take_all n xs (omega arith)) refl,
    )

pub answer_refused :
    (req : IpcRequest) (e : Enclave) (buffer : Bytes)
    → Answers req.request_id (done (e, respond req status_failed 0 buffer)) (e, none)
unfolding init_ipc_response htons
answer_refused req e buffer = (refl, refl)

pub answer_empty :
    (req : IpcRequest) (e : Enclave) (buffer : Bytes)
    → Answers req.request_id (done (e, respond req status_ok 0 buffer)) (e, some [])
unfolding init_ipc_response htons
answer_empty req e buffer = (refl, refl)

-- What the handler is given: a buffer of 4096 bytes, a nonce of 12, a request received whole, and
-- libsodium as it is documented.
pub record Setting (s : Sodium) (public_of : Bytes → Bytes) (nonce : Bytes) (e : Enclave)
    (req : IpcRequest) (buffer : Bytes) : Type 0 where
  pub aead : AeadLaws s
  pub exchange : ExchangeLaws s public_of
  pub table : Invariant.IsValid e.manager
  pub nonce_size : length nonce ≡ 12
  pub fits : RequestFits req
  pub small : length req.payload ≤ ipc_max_data_size
  pub buffer_size : length buffer ≡ ipc_max_data_size

module _ {s : Sodium} {public_of : Bytes → Bytes} {nonce : Bytes} {e : Enclave} {req : IpcRequest}
    {buffer : Bytes} (w : Setting s public_of nonce e req buffer) where
  pub answer_encrypt :
      length req.payload + 28 ≤ ipc_max_data_size
      → Answers req.request_id
          (on_encrypt s nonce e req (htons req.data_len) buffer)
          (e, seal s nonce e.manager req.vpn_ip req.payload)
  unfolding on_encrypt seal
  answer_encrypt room = elim (Option-cases (get_key e.manager req.vpn_ip)) [
    | inl unknown ↦ rw (unknown, on_encrypt, seal) (answer_refused req e buffer)
    | inr (key, known) ↦
        rw
          (
            known,
            on_encrypt,
            seal,
            blit_start buffer nonce (omega (arith, w.nonce_size, w.buffer_size)),
            w.fits.counted,
            take_all (length req.payload) req.payload (omega arith),
          )
          (elim (Option-cases (s.aead_encrypt key nonce req.payload)) [
            | inl failed ↦ absurd (w.aead.encrypt_succeeds key nonce req.payload failed)
            | inr (c, sealed) ↦
                let size = w.aead.encrypt_length key nonce req.payload c sealed in
                rw
                  (
                    sealed,
                    blit_next buffer nonce c 12 w.nonce_size
                        (omega (arith, w.nonce_size, w.buffer_size, size)),
                    ← append_assoc nonce c (drop (length nonce + length c) buffer),
                    w.fits.counted,
                  )
                  (answer_data req e (nonce ++ c) _ (12 + length req.payload + 16)
                    (omega (arith, length-append nonce c, w.nonce_size, size)) (omega arith))
          ])
  ]

  answer_opened :
      (key text : Bytes)
      → 28 ≤ length req.payload
      → s.aead_decrypt key (take 12 req.payload) (drop 12 req.payload) ≡ some text
      → Answers req.request_id
          (blit buffer 0 text >>= λ output.
            done
              (e, respond req status_ok (htons ((length req.payload - 12 - 16) % 2 ^ 16)) output))
          (e, some text)
  answer_opened key text enough accepted =
      let size = w.aead.decrypt_length key _ (drop 12 req.payload) text accepted in
      let n : length text ≡ length req.payload - 12 - 16 =
        omega (arith, size, length-drop 12 req.payload) in
      rw (blit_start buffer text (omega (arith, n, w.buffer_size, w.small)))
        (answer_data req e text _ (length req.payload - 12 - 16) n (omega (arith, w.small)))

  pub answer_decrypt :
      Answers req.request_id
        (on_decrypt s e req (htons req.data_len) buffer)
        (e, unseal s e.manager req.vpn_ip req.payload)
  unfolding on_decrypt unseal
  answer_decrypt = elim (Option-cases (get_key e.manager req.vpn_ip)) [
    | inl unknown ↦ rw (unknown, on_decrypt, unseal) (answer_refused req e buffer)
    | inr (key, known) ↦
        rw (known, on_decrypt, unseal, w.fits.counted)
          (elim (Bool-cases (ltb (length req.payload) 28)) [
            | inl short ↦ rw short (answer_refused req e buffer)
            | inr long ↦
                rw long
                  (elim (Option-cases
                    (s.aead_decrypt key (take 12 req.payload) (drop 12 req.payload))) [
                      | inl rejected ↦ rw rejected (answer_refused req e buffer)
                      | inr (text, accepted) ↦
                          rw (accepted, w.fits.counted)
                            (answer_opened key text (ltb→le _ _ long) accepted)
                    ])
          ])
  ]

  pub answer_add_key :
      Answers req.request_id
        (on_add_key e req (htons req.data_len) buffer)
        (reference_command s Command.add_key nonce e req.vpn_ip req.payload)
  unfolding on_add_key reference_command
  answer_add_key = rw w.fits.counted (elim (Bool-cases (length req.payload == 32)) [
    | inl right ↦ rw right (elim (Bool-cases (add_key e.manager req.vpn_ip req.payload).1) [
      | inl added ↦ rw added (answer_empty req _ buffer)
      | inr full ↦ rw full (answer_refused req _ buffer)
    ])
    | inr wrong ↦ rw wrong (answer_refused req e buffer)
  ])

  length-server_public_key : length (get_server_public_key e.manager) ≡ 32
  unfolding get_server_public_key
  length-server_public_key =
      omega (arith, length-take 32 e.manager.server_public_key, w.table.public_key)

  -- The handshake's answer, by what `perform_handshake` gives.
  answer_exchanged :
      (result : KeyManager × Option Bytes)
      → ((key : Bytes) → result.1 ≡ some key → length key ≡ 32)
      → Answers req.request_id
          (elim result.1 [
            | none ↦ done (
              record e { manager = result.0 },
              respond req status_failed 0 (
                  get_server_public_key e.manager
                  ++ drop (length (get_server_public_key e.manager)) buffer),
            )
            | some session_key ↦
                blit
                  (get_server_public_key e.manager
                    ++ drop (length (get_server_public_key e.manager)) buffer)
                  32
                  session_key
                >>= λ output.
                    done (record e { manager = result.0 }, respond req status_ok (htons 64) output)
          ])
          (
            record e { manager = result.0 },
            Option.map (λ k. get_server_public_key e.manager ++ k) result.1,
          )
  answer_exchanged (km, none) size = answer_refused req _ _
  answer_exchanged (km, some key) size =
      let public = get_server_public_key e.manager in
      let n = size key refl in
      rw
        (
          blit_next buffer public key 32 length-server_public_key
              (omega (arith, n, length-server_public_key, w.buffer_size)),
          ← append_assoc public key (drop (length public + length key) buffer),
        )
        (answer_data req _ (public ++ key) _ 64
          (omega (arith, length-append public key, length-server_public_key, n)) (omega arith))

  pub answer_handshake :
      Answers req.request_id
        (on_handshake s e req (htons req.data_len) buffer)
        (reference_command s Command.handshake nonce e req.vpn_ip req.payload)
  unfolding on_handshake reference_command exchange_keys
  answer_handshake = rw w.fits.counted (elim (Bool-cases (length req.payload == 32)) [
    | inl right ↦
        rw
          (
            right,
            blit_start buffer (get_server_public_key e.manager)
                (omega (arith, length-server_public_key, w.buffer_size)),
          )
          (answer_exchanged (perform_handshake s e.manager req.vpn_ip req.payload)
            (λ key. length-perform_handshake w.exchange e.manager req.vpn_ip req.payload key))
    | inr wrong ↦ rw wrong (answer_refused req e buffer)
  ])
