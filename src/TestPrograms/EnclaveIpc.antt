-- ===== src/TestPrograms/EnclaveIpc.antt =====
-- `main` of VPN/src/server/test_enclave_ipc.c: a key is added to a running enclave, used both ways and
-- taken out again. `sleep` and what is printed have no effect here.
pub mod Works
use mathlib.Core.Option
use cloud_service.Base.{
  ℕ, ◌+◌, ◌<◌, ◌≤◌, ◌≡◌, ◌≢◌, refl, ap, sym, ◌∙◌, Bool, true, false, Option, none, some, [], ◌∷◌,
  ◌++◌, length, arith, if◌then◌else◌, ltb, replicate, le→ltb,
}
use cloud_service.Crypto.{Sodium}
use cloud_service.Enclave.{Enclave}
use cloud_service.Enclave.Reference.{seal, unseal}
use cloud_service.Enclave.Serve.{unseal-seal}
use cloud_service.EnclaveClient.{
  Link, enclave_ping, enclave_add_key, enclave_encrypt, enclave_decrypt, enclave_remove_key,
}
use cloud_service.EnclaveClient.Calls.{
  next_id, enclave_add_key_lem, enclave_encrypt_lem, enclave_decrypt_lem, enclave_remove_key_lem,
}
use cloud_service.EnclaveClient.Peer.{enclave_exchange, Ready, link_to}
use cloud_service.Keys.{KeyManager, max_keys, add_key, get_key, remove_key}
use cloud_service.Keys.Invariant.{add_key-IsValid}
use cloud_service.System.{System, Outcomes, close}
use cloud_service.System.Sockets.{Opens, enclave_connect, enclave_connect-Opens, enclave_disconnect}
use cloud_service.Text.{codes}
use cloud_service.Wire.{Bytes, Run, fault, done, ◌>>=◌, load32}

-- `inet_addr("10.8.0.5")`
abbrev pub test_vpn_ip : ℕ
test_vpn_ip = load32 (10 ∷ 8 ∷ 0 ∷ 5 ∷ []) 0

-- `test_key`: the bytes that the initializer leaves out are 0.
abbrev pub test_key : Bytes
test_key = 0xab ∷ 0xcd ∷ 0xef ∷ replicate 29 0

abbrev pub test_text : Bytes
test_text = codes "Hello Enclave!"

-- what the program prints of its five calls
pub record Report : Type 0 where
  pub pinged : Bool
  pub added : Bool
  pub encrypted : Option Bytes
  pub decrypted : Option Bytes
  pub removed : Bool

-- `memcpy` of what a call gives into an array with room for `n` bytes
abbrev pub copied_into : ℕ → Option Bytes → Run (Option Bytes)
copied_into n none = done none
copied_into n (some bytes) = if ltb n (length bytes) then fault else done (some bytes)

-- `ciphertext` and `ciphertext_len`, which are not written when the encryption fails
abbrev pub in_array : Bytes → Option Bytes → Bytes
in_array stale none = stale
in_array stale (some bytes) = bytes

module _ {P : Type 0} (exchange : P → Bytes → Option (P × Bytes)) where
  -- from the PING on; the plaintext gets an end mark in its array of 256 bytes
  unfoldable pub try_enclave : Link P → Bytes → Run (Link P × Report)
  try_enclave l stale =
      let (l1, pinged) = enclave_ping exchange l in
      let (l2, added) = enclave_add_key exchange l1 test_vpn_ip test_key in
      let (l3, sealed) = enclave_encrypt exchange l2 test_vpn_ip test_text in
      copied_into 256 sealed >>= λ encrypted.
      let (l4, opened) = enclave_decrypt exchange l3 test_vpn_ip (in_array stale encrypted) in
      copied_into 255 opened >>= λ decrypted.
      let (l5, removed) = enclave_remove_key exchange l4 test_vpn_ip in
      done (
        l5,
        record {
          pinged = pinged;
          added = added;
          encrypted = encrypted;
          decrypted = decrypted;
          removed = removed;
        },
      )

  -- The result is the system, the end of the connection with what was printed, and the exit status.
  abbrev pub with_connection :
      P → Bytes → System × Option ℕ → Run (System × Option (Link P × Report) × ℕ)
  with_connection peer stale (s, none) = done (s, none, 1)
  with_connection peer stale (s, some fd) =
      try_enclave (record { peer = peer; unread = []; request_id = 0 }) stale >>= λ r.
      done (enclave_disconnect s (some fd), some r, 0)

  unfoldable pub test_enclave_ipc :
      Outcomes → P → System → Bytes → Run (System × Option (Link P × Report) × ℕ)
  test_enclave_ipc o peer s stale = with_connection peer stale (enclave_connect o s)
