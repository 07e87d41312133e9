-- ===== src/EnclaveClient/RoundTrip.antt =====
-- The two data calls of enclave_client.c, one after the other, with the enclave at the other end.
use cloud_service.Base.{ℕ, ◌+◌, ◌^◌, ◌<◌, ◌≤◌, ◌≡◌, ◌≢◌, ap, ◌∙◌, none, some, length, arith}
use cloud_service.Crypto.{Sodium}
use cloud_service.Enclave.{Enclave}
use cloud_service.Enclave.Serve.{unseal-seal}
use cloud_service.EnclaveClient.{enclave_decrypt, enclave_encrypt}
use cloud_service.EnclaveClient.Calls.{enclave_decrypt_lem, enclave_encrypt_lem, next_id}
use cloud_service.EnclaveClient.Peer.{enclave_exchange, Ready, link_to}
use cloud_service.Ipc.{ipc_max_data_size}
use cloud_service.Keys.{get_key}
use cloud_service.Wire.{Bytes}

-- With an enclave that waits for requests and has a key for the address, `enclave_encrypt` of at
-- most 4068 bytes succeeds with 28 bytes more, and `enclave_decrypt` of what it gave, the next call
-- on the link, gives the text back.
pub enclave_decrypt-enclave_encrypt :
    {s : Sodium} {public_of : Bytes → Bytes} {nonce buffer : Bytes} {e : Enclave} (id ip : ℕ)
    (text : Bytes)
    → Ready s public_of nonce buffer e
    → ip < 2 ^ 32
    → length text + 28 ≤ ipc_max_data_size
    → get_key e.manager ip ≢ none
    → (sealed : Bytes) × (length sealed ≡ length text + 28)
      × (enclave_encrypt (enclave_exchange s nonce buffer) (link_to e id) ip text
          ≡ (link_to e (next_id id), some sealed))
      × (enclave_decrypt (enclave_exchange s nonce buffer) (link_to e (next_id id)) ip sealed
          ≡ (link_to e (next_id (next_id id)), some text))
enclave_decrypt-enclave_encrypt {nonce = nonce} {e = e} id ip text w hi room key =
    let (sealed, made, back, n) = unseal-seal e.manager ip nonce text w.aead w.nonce_size key in
    (
      sealed,
      n,
      enclave_encrypt_lem w id ip text hi room ∙ ap (λ r. (link_to e (next_id id), r)) made,
      enclave_decrypt_lem w (next_id id) ip sealed hi (omega (arith, n))
          ∙ ap (λ r. (link_to e (next_id (next_id id)), r)) back,
    )
