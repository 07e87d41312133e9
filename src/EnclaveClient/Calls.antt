-- ===== src/EnclaveClient/Calls.antt =====
-- The calls of enclave_client.c, made to the enclave.
use mathlib.Core.Option
use cloud_service.Base.{
  ℕ, ◌+◌, ◌%◌, ◌^◌, ◌<◌, ◌≤◌, ◌≡◌, refl, ap, sym, ◌∙◌, true, false, Option, none, some, inl, inr,
  [], ◌++◌, length, arith, take, drop, take_all, take-append, drop-append, le→ltb, ltb, Bool-cases,
  length-drop, length-append, Option-cases, ◌==◌, length-take, if_holds, if◌then◌else◌,
}
use cloud_service.Crypto.{Sodium}
use cloud_service.Enclave.{Enclave}
use cloud_service.Enclave.Reference.{seal, unseal, reference_command, exchange_keys}
use cloud_service.EnclaveClient.{
  call, copied_out, enclave_ping, enclave_add_key, two_keys, enclave_remove_key, enclave_handshake,
  enclave_encrypt, enclave_decrypt,
}
use cloud_service.EnclaveClient.Peer.{enclave_exchange, Ready, link_to, call_lem}
use cloud_service.EnclaveClient.Replies.{told, size_of}
use cloud_service.Ipc.{
  Command, ipc_command, ipc_encrypt, ipc_decrypt, ipc_ping, ipc_add_key, ipc_handshake,
  ipc_remove_key, ipc_max_data_size, response_size, init_ipc_response,
}
use cloud_service.Keys.{add_key, get_key, remove_key, get_server_public_key, perform_handshake}
use cloud_service.Keys.Invariant.{length-perform_handshake}
use cloud_service.Wire.{Bytes, htonl, htons-htons}

abbrev pub next_id : ℕ → ℕ
next_id id = (id + 1) % 2 ^ 32

-- What `memcpy` takes out of a response is the answer's data.
copied_out-told :
    (id : ℕ) (answer : Option Bytes)
    → size_of answer < 2 ^ 16
    → copied_out (told id answer) ≡ answer
unfolding init_ipc_response
copied_out-told id none h = refl
copied_out-told id (some bytes) h =
    let n : length bytes % 2 ^ 16 ≡ length bytes = omega arith in
    rw
      (
        n,
        htons-htons (length bytes) h,
        take_all (length bytes) bytes (omega arith),
        take_all (length bytes) bytes (omega arith),
      )
      refl

module _ {s : Sodium} {public_of : Bytes → Bytes} {nonce buffer : Bytes} {e : Enclave}
    (w : Ready s public_of nonce buffer e) where
  pub size-seal :
      (ip : ℕ) (text : Bytes) → size_of (seal s nonce e.manager ip text) ≤ length text + 28
  unfolding seal
  size-seal ip text = elim (Option-cases (get_key e.manager ip)) [
    | inl unknown ↦ rw (unknown, size_of, seal) (omega arith)
    | inr (key, known) ↦
        rw (known, size_of, seal)
          (elim (Option-cases (s.aead_encrypt key nonce text)) [
            | inl failed ↦ rw (failed, size_of) (omega arith)
            | inr (c, sealed) ↦
                rw (sealed, size_of)
                  (omega (
                    arith,
                    length-append nonce c,
                    w.nonce_size,
                    w.aead.encrypt_length key nonce text c sealed,
                  ))
          ])
  ]

  pub size-unseal :
      (ip : ℕ) (sealed : Bytes) → size_of (unseal s e.manager ip sealed) ≤ length sealed
  unfolding unseal
  size-unseal ip sealed = elim (Option-cases (get_key e.manager ip)) [
    | inl unknown ↦ rw (unknown, size_of, unseal) (omega arith)
    | inr (key, known) ↦
        rw (known, size_of, unseal)
          (elim (Bool-cases (ltb (length sealed) 28)) [
            | inl short ↦ rw (short, size_of) (omega arith)
            | inr long ↦
                rw (long, size_of)
                  (elim (Option-cases (s.aead_decrypt key (take 12 sealed) (drop 12 sealed))) [
                    | inl rejected ↦ rw (rejected, size_of) (omega arith)
                    | inr (text, accepted) ↦
                        rw (accepted, size_of)
                          (omega (
                            arith,
                            length-drop 12 sealed,
                            w.aead.decrypt_length key (take 12 sealed) (drop 12 sealed) text
                                accepted,
                          ))
                  ])
          ])
  ]

  -- With an enclave that waits for requests, `enclave_encrypt` of at most 4068 bytes gives what the
  -- reference seals with the address's key, and fails if it has none; the enclave's keys stay as
  -- they are, and the request counter moves by one.
  pub enclave_encrypt_lem :
      (id ip : ℕ) (text : Bytes)
      → ip < 2 ^ 32
      → length text + 28 ≤ ipc_max_data_size
      → enclave_encrypt (enclave_exchange s nonce buffer) (link_to e id) ip text
        ≡ (link_to e (next_id id), seal s nonce e.manager ip text)
  unfolding enclave_encrypt reference_command ipc_command
  enclave_encrypt_lem id ip text hi room =
      let fits : ltb ipc_max_data_size (length text) ≡ false = le→ltb _ _ (omega arith) in
      rw
        (
          fits,
          call_lem w ipc_encrypt ip text id (response_size + ipc_max_data_size) (omega arith) hi
              (omega arith) room (omega (arith, size-seal ip text)) (omega arith),
          copied_out-told (htonl (next_id id)) (seal s nonce e.manager ip text)
              (omega (arith, size-seal ip text)),
        )
        refl

  -- With an enclave that waits for requests, `enclave_decrypt` of at most 4096 bytes gives what the
  -- reference unseals with the address's key, and fails if that fails; the enclave's keys stay as
  -- they are, and the request counter moves by one.
  pub enclave_decrypt_lem :
      (id ip : ℕ) (sealed : Bytes)
      → ip < 2 ^ 32
      → length sealed ≤ ipc_max_data_size
      → enclave_decrypt (enclave_exchange s nonce buffer) (link_to e id) ip sealed
        ≡ (link_to e (next_id id), unseal s e.manager ip sealed)
  unfolding enclave_decrypt reference_command ipc_command
  enclave_decrypt_lem id ip sealed hi small =
      let fits : ltb ipc_max_data_size (length sealed) ≡ false = le→ltb _ _ small in
      rw
        (
          fits,
          call_lem w ipc_decrypt ip sealed id (response_size + ipc_max_data_size) (omega arith) hi
              small tt (omega (arith, size-unseal ip sealed)) (omega arith),
          copied_out-told (htonl (next_id id)) (unseal s e.manager ip sealed)
              (omega (arith, size-unseal ip sealed)),
        )
        refl

  -- With an enclave that waits for requests, `enclave_remove_key` succeeds and makes the enclave's
  -- table what `remove_key` makes of it.
  pub enclave_remove_key_lem :
      (id ip : ℕ)
      → ip < 2 ^ 32
      → enclave_remove_key (enclave_exchange s nonce buffer) (link_to e id) ip
        ≡ (link_to (record e { manager = remove_key e.manager ip }) (next_id id), true)
  unfolding enclave_remove_key reference_command ipc_command
  enclave_remove_key_lem id ip hi =
      rw
        (call_lem w ipc_remove_key ip [] id response_size (omega arith) hi (omega arith) tt
          (omega arith) (omega arith))
        refl

  -- With an enclave that waits for requests, `enclave_ping` succeeds and changes nothing but the
  -- request counter.
  pub enclave_ping_lem :
      (id : ℕ)
      → enclave_ping (enclave_exchange s nonce buffer) (link_to e id)
        ≡ (link_to e (next_id id), true)
  unfolding enclave_ping reference_command ipc_command
  enclave_ping_lem id =
      rw
        (call_lem w ipc_ping 0 [] id response_size (omega arith) (omega arith) (omega arith) tt
          (omega arith) (omega arith))
        refl

  add_key_called :
      (n id ip : ℕ) (key : Bytes)
      → length key ≡ n
      → n ≡ 32
      → ip < 2 ^ 32
      → call (enclave_exchange s nonce buffer) (link_to e id) ipc_add_key ip key n response_size ≡ (
        link_to (record e { manager = (add_key e.manager ip key).0 }) (next_id id),
        told (htonl (next_id id)) (if (add_key e.manager ip key).1 then some [] else none),
      )
  unfolding ipc_command reference_command
  add_key_called n id ip key hn h32 hi =
      let right : (length key == 32) ≡ true = ground (arith, hn, h32) in
      ap
        (λ k.
          call (enclave_exchange s nonce buffer) (link_to e id) ipc_add_key ip key k response_size)
        (sym hn)
      ∙ rw right at (
          call_lem w ipc_add_key ip key id response_size (omega arith) hi (omega (arith, hn, h32))
            tt
            (rw right (
              if_holds (λ r. response_size + size_of r ≤ response_size) (add_key e.manager ip key).1
                (omega arith) (omega arith)))
            (omega arith))

  -- With an enclave that waits for requests, `enclave_add_key` with a key of 32 bytes makes the
  -- enclave's table what `add_key` makes of it, and succeeds if that does.
  pub enclave_add_key_lem :
      (id ip : ℕ) (key : Bytes)
      → ip < 2 ^ 32
      → length key ≡ 32
      → enclave_add_key (enclave_exchange s nonce buffer) (link_to e id) ip key ≡ (
        link_to (record e { manager = (add_key e.manager ip key).0 }) (next_id id),
        (add_key e.manager ip key).1,
      )
  unfolding enclave_add_key
  enclave_add_key_lem id ip key hi hk =
      rw (take_all 32 key (omega (arith, hk)), add_key_called 32 id ip key hk refl hi)
        (elim (Bool-cases (add_key e.manager ip key).1) [
          | inl stored ↦ rw stored refl
          | inr full ↦ rw full refl
        ])

abbrev pub with_public_key : Bytes → Option Bytes → Option (Bytes × Bytes)
with_public_key public none = none
with_public_key public (some key) = some (public, key)

two_keys-told :
    (id : ℕ) (public : Bytes) (result : Option Bytes)
    → length public ≡ 32
    → ((key : Bytes) → result ≡ some key → length key ≡ 32)
    → two_keys (told id (Option.map (λ k. public ++ k) result)) ≡ with_public_key public result
unfolding init_ipc_response
two_keys-told id public none hp hk = refl
two_keys-told id public (some key) hp hk =
    let n : length (public ++ key) % 2 ^ 16 ≡ 64 =
      omega (arith, length-append public key, hp, hk key refl) in
    rw
      (
        n,
        take_all 64 (public ++ key) (omega (arith, length-append public key, hp, hk key refl)),
        take-append 32 public key hp,
        drop-append 32 public key hp,
        take_all 32 key (omega (arith, hk key refl)),
      )
      refl

size-two_keys :
    (public : Bytes) (result : Option Bytes)
    → length public ≡ 32
    → ((key : Bytes) → result ≡ some key → length key ≡ 32)
    → size_of (Option.map (λ k. public ++ k) result) ≤ 64
size-two_keys public none hp hk = omega arith
size-two_keys public (some key) hp hk = omega (arith, length-append public key, hp, hk key refl)

module _ {s : Sodium} {public_of : Bytes → Bytes} {nonce buffer : Bytes} {e : Enclave}
    (w : Ready s public_of nonce buffer e) where
  exchange_keys_lem :
      (ip : ℕ) (client_key : Bytes)
      → length client_key ≡ 32
      → reference_command s Command.handshake nonce e ip client_key ≡ (
        record e { manager = (perform_handshake s e.manager ip client_key).0 },
        Option.map
            (λ k. get_server_public_key e.manager ++ k)
            (perform_handshake s e.manager ip client_key).1,
      )
  unfolding reference_command exchange_keys
  exchange_keys_lem ip client_key hk =
      let right : (length client_key == 32) ≡ true = ground (arith, hk) in rw right refl

  handshake_called :
      (n id ip : ℕ) (client_key : Bytes)
      → length client_key ≡ n
      → n ≡ 32
      → ip < 2 ^ 32
      → call
          (enclave_exchange s nonce buffer)
          (link_to e id)
          ipc_handshake
          ip
          client_key
          n
          (response_size + 64)
        ≡ (
          link_to
              (record e { manager = (perform_handshake s e.manager ip client_key).0 })
              (next_id id),
          told (htonl (next_id id)) (
              Option.map
                (λ k. get_server_public_key e.manager ++ k)
                (perform_handshake s e.manager ip client_key).1),
        )
  unfolding ipc_command
  handshake_called n id ip client_key hn h32 hi =
      let hk : length client_key ≡ 32 = hn ∙ h32 in
      let public : length (get_server_public_key e.manager) ≡ 32 =
        unfold get_server_public_key in
        omega (arith, length-take 32 e.manager.server_public_key, w.table.public_key) in
      let keyed =
        λ (key : Bytes). length-perform_handshake w.exchange e.manager ip client_key key in
      let same = exchange_keys_lem ip client_key hk in
      let small =
        size-two_keys (get_server_public_key e.manager)
          (perform_handshake s e.manager ip client_key).1 public keyed in
      ap
        (λ k.
          call (enclave_exchange s nonce buffer) (link_to e id) ipc_handshake ip client_key k
            (response_size + 64))
        (sym hn)
      ∙ (call_lem w ipc_handshake ip client_key id (response_size + 64) (omega arith) hi
            (omega arith) tt (rw same (omega (arith, small))) (omega arith)
          ∙ ap (λ r. (link_to r.0 (next_id id), told (htonl (next_id id)) r.1)) same)

  -- With an enclave that waits for requests, `enclave_handshake` with a key of 32 bytes gives the
  -- server's public key and the session key that `perform_handshake` derives, and the enclave's
  -- table becomes what that leaves; it fails if that fails.
  pub enclave_handshake_lem :
      (id ip : ℕ) (client_key : Bytes)
      → ip < 2 ^ 32
      → length client_key ≡ 32
      → enclave_handshake (enclave_exchange s nonce buffer) (link_to e id) ip client_key ≡ (
        link_to
            (record e { manager = (perform_handshake s e.manager ip client_key).0 })
            (next_id id),
        with_public_key
            (get_server_public_key e.manager)
            (perform_handshake s e.manager ip client_key).1,
      )
  unfolding enclave_handshake
  enclave_handshake_lem id ip client_key hi hk =
      let public : length (get_server_public_key e.manager) ≡ 32 =
        unfold get_server_public_key in
        omega (arith, length-take 32 e.manager.server_public_key, w.table.public_key) in
      let keyed =
        λ (key : Bytes). length-perform_handshake w.exchange e.manager ip client_key key in
      rw
        (
          take_all 32 client_key (omega (arith, hk)),
          handshake_called 32 id ip client_key hk refl hi,
          two_keys-told (htonl (next_id id)) (get_server_public_key e.manager)
              (perform_handshake s e.manager ip client_key).1 public keyed,
        )
        refl
