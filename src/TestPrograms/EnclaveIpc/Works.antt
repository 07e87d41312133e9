-- ===== src/TestPrograms/EnclaveIpc/Works.antt =====
-- test_enclave_ipc.c against the enclave: what it prints, and what it leaves behind.
use cloud_service.Base.{
  ℕ, ◌^◌, ◌<◌, ◌≤◌, ◌≡◌, ◌≢◌, refl, ◌∙◌, true, Option, none, some, length, arith, le→ltb, ==_refl,
}
use cloud_service.Crypto.{Sodium}
use cloud_service.Enclave.{Enclave}
use cloud_service.Enclave.Serve.{unseal-seal}
use cloud_service.EnclaveClient.{Link}
use cloud_service.EnclaveClient.Calls.{
  next_id, enclave_ping_lem, enclave_add_key_lem, enclave_encrypt_lem, enclave_decrypt_lem,
  enclave_remove_key_lem,
}
use cloud_service.EnclaveClient.Peer.{enclave_exchange, Ready, link_to}
use cloud_service.Keys.{max_keys, add_key, get_key, remove_key}
use cloud_service.Keys.Invariant.{add_key-IsValid}
use cloud_service.Keys.Lookup.{
  add_key-stored, has_free_key, get_key-add_key_other, get_key-remove_key_other,
}
use cloud_service.System.{System, Outcomes, close, without}
use cloud_service.System.Sockets.{Opens, enclave_connect, enclave_connect-Opens, enclave_disconnect}
use cloud_service.TestPrograms.EnclaveIpc.{
  Report, test_vpn_ip, test_key, test_text, try_enclave, with_connection, test_enclave_ipc,
  copied_into,
}
use cloud_service.Wire.{Bytes, Run, fault, done}

abbrev pub with_test_key : Enclave → Enclave
with_test_key e = record e { manager = (add_key e.manager test_vpn_ip test_key).0 }

abbrev pub without_test_key : Enclave → Enclave
without_test_key e = record e {
  manager = remove_key (add_key e.manager test_vpn_ip test_key).0 test_vpn_ip;
}

-- what is printed when every call succeeds
abbrev pub all_well : Bytes → Report
all_well sealed = record {
  pinged = true;
  added = true;
  encrypted = some sealed;
  decrypted = some test_text;
  removed = true;
}

with_test_key-Ready :
    {s : Sodium} {public_of : Bytes → Bytes} {nonce buffer : Bytes} {e : Enclave}
    → Ready s public_of nonce buffer e
    → Ready s public_of nonce buffer (with_test_key e)
with_test_key-Ready w = record {
  aead = w.aead;
  exchange = w.exchange;
  table = add_key-IsValid test_vpn_ip test_key w.table refl;
  nonce_size = w.nonce_size;
  buffer_size = w.buffer_size;
  running = w.running;
}

copied_into-fits : (n : ℕ) (b : Bytes) → length b ≤ n → copied_into n (some b) ≡ done (some b)
copied_into-fits n b h = rw (le→ltb n (length b) h) refl

module _ {s : Sodium} {public_of : Bytes → Bytes} {nonce buffer : Bytes} {e : Enclave}
    (w : Ready s public_of nonce buffer e) (room : e.manager.count < max_keys) where
  -- The five calls one after the other.
  try_enclave_lem :
      (id : ℕ) (stale : Bytes)
      → (sealed : Bytes) × (try_enclave (enclave_exchange s nonce buffer) (link_to e id) stale
          ≡ done (
            link_to (without_test_key e) (next_id (next_id (next_id (next_id (next_id id))))),
            all_well sealed,
          ))
        × (length sealed ≡ 42)
  unfolding try_enclave
  try_enclave_lem id stale =
      let (stored, known) = add_key-stored test_vpn_ip test_key w.table room refl in
      let w' = with_test_key-Ready w in
      let ip : test_vpn_ip < 2 ^ 32 = omega arith in
      let (sealed, made, back, n) =
        unseal-seal (with_test_key e).manager test_vpn_ip nonce test_text w.aead w.nonce_size
          known in
      (
        sealed,
        rw
            (
              enclave_ping_lem w id,
              enclave_add_key_lem w (next_id id) test_vpn_ip test_key ip refl,
              stored,
              enclave_encrypt_lem w' (next_id (next_id id)) test_vpn_ip test_text ip (omega arith),
              made,
              copied_into-fits 256 sealed (omega (arith, n)),
              enclave_decrypt_lem w' (next_id (next_id (next_id id))) test_vpn_ip sealed ip
                  (omega (arith, n)),
              back,
              enclave_remove_key_lem w' (next_id (next_id (next_id (next_id id)))) test_vpn_ip ip,
            )
            refl,
        n,
      )

-- The program ends, and its connection is closed; if it could connect, every call succeeded, the text
-- came back, and the enclave holds for the address `other` the key that it held before.
abbrev pub Works :
    ℕ → Enclave → System → Run (System × Option (Link (Run Enclave) × Report) × ℕ) → Type 0
Works other e sys fault = ⊥
Works other e sys (done (sys', none, status)) = (sys'.descriptors ≡ sys.descriptors) × (status ≡ 1)
Works other e sys (done (sys', some (l, report), status)) =
    (sys'.descriptors ≡ sys.descriptors)
    × (status ≡ 0)
    × ((sealed : Bytes) × (report ≡ all_well sealed))
    × ((e' : Enclave) × (l.peer ≡ done e') × (get_key e'.manager other ≡ get_key e.manager other))

module _ {s : Sodium} {public_of : Bytes → Bytes} {nonce buffer : Bytes} {e : Enclave}
    (w : Ready s public_of nonce buffer e) (room : e.manager.count < max_keys) (other : ℕ)
    (differ : test_vpn_ip ≢ other) where
  other_kept : get_key (without_test_key e).manager other ≡ get_key e.manager other
  other_kept =
      let (i, free, first_free) = has_free_key w.table room in
      get_key-remove_key_other (add_key e.manager test_vpn_ip test_key).0 test_vpn_ip other differ
      ∙ get_key-add_key_other e.manager test_vpn_ip test_key first_free other differ

  with_connection-Works :
      (stale : Bytes) (sys : System) (q : System × Option ℕ)
      → Opens sys q
      → Works other e sys (with_connection (enclave_exchange s nonce buffer) (done e) stale q)
  unfolding enclave_disconnect close without
  with_connection-Works stale sys (sys', none) (d, c, le) = (d, refl)
  with_connection-Works stale sys (sys', some fd) (d, c, le, lt) =
      let (sealed, works, n) = try_enclave_lem w room 0 stale in
      rw works
        (rw (d, ==_refl fd) refl, refl, (sealed, refl), (without_test_key e, refl, other_kept))

  -- Against an enclave that waits for requests and has room for a key, the program never writes past
  -- its arrays and closes what it opened; if it can connect, the ping, the adding of the key, the
  -- encryption, the decryption to the same text and the removal of the key all succeed, and the key
  -- of every other address is what it was before.
  pub test_enclave_ipc-Works :
      (o : Outcomes) (sys : System) (stale : Bytes)
      → Works other e sys (test_enclave_ipc (enclave_exchange s nonce buffer) o (done e) sys stale)
  unfolding test_enclave_ipc
  test_enclave_ipc-Works o sys stale =
      with_connection-Works stale sys (enclave_connect o sys) (enclave_connect-Opens o sys)
