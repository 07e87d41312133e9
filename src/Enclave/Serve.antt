-- ===== src/Enclave/Serve.antt =====
-- Runs of the enclave: the round trip of its two data services, what a request may change, and the
-- loop over a connection.
use cloud_service.Base.{
  if_tested, ℕ, ◌+◌, ◌≡◌, ◌≢◌, refl, true, false, if◌then◌else◌, none, some, inl, inr, List, [],
  ◌∷◌, ◌++◌, ◌==◌, length, arith, ltb, take-append, drop-append, length-append, le→ltb, ==_iff,
  Bool-cases, Option-cases,
}
use cloud_service.Crypto.{Sodium, AeadLaws, ExchangeLaws}
use cloud_service.Enclave.{
  Enclave, Stream, Turn, handle_ipc_request, serve, signalled, still_serving,
}
use cloud_service.Enclave.Receive.{receive_request_nothing}
use cloud_service.Enclave.Reference.{seal, unseal, exchange_keys, reference, reference_command}
use cloud_service.Ipc.{Command, IpcRequest, ipc_command}
use cloud_service.Keys.{KeyManager, get_key, add_key, remove_key, perform_handshake}
use cloud_service.Keys.Invariant
use cloud_service.Keys.Invariant.{
  add_key-IsValid, remove_key-IsValid, perform_handshake-IsValid, perform_handshake_cases,
  length-derive_session_key, add_key_cases, remove_key_cases,
}
use cloud_service.Wire.{Bytes, done, IfDone, IfDone-any, IfDone-bind}

-- For an address that has a key, the enclave seals every text, to 28 bytes more, and unseals what it
-- sealed to the same text.
pub unseal-seal :
    {s : Sodium} (km : KeyManager) (ip : ℕ) (nonce text : Bytes)
    → AeadLaws s
    → length nonce ≡ 12
    → get_key km ip ≢ none
    → (sealed : Bytes) × (seal s nonce km ip text ≡ some sealed)
      × (unseal s km ip sealed ≡ some text)
      × (length sealed ≡ length text + 28)
unfolding seal unseal
unseal-seal {s} km ip nonce text laws n known = elim (Option-cases (get_key km ip)) [
  | inl unknown ↦ absurd (known unknown)
  | inr (key, here) ↦ elim (Option-cases (s.aead_encrypt key nonce text)) [
    | inl failed ↦ absurd (laws.encrypt_succeeds key nonce text failed)
    | inr (c, sealed) ↦
        let size = laws.encrypt_length key nonce text c sealed in
        let total : length (nonce ++ c) ≡ length text + 28 =
          omega (arith, length-append nonce c, n, size) in
        let long : ltb (length (nonce ++ c)) 28 ≡ false = le→ltb _ _ (omega (arith, total)) in
        (
          nonce ++ c,
          rw (here, seal, sealed) refl,
          rw (here, unseal, long, take-append 12 nonce c n, drop-append 12 nonce c n)
              (laws.decrypt_encrypt key nonce text c sealed),
          total,
        )
  ]
]

-- The table stays valid and the server's key pair stays what it was.
abbrev pub SameServer : KeyManager → KeyManager → Type 0
SameServer km km' =
    (km'.server_private_key ≡ km.server_private_key)
    × (km'.server_public_key ≡ km.server_public_key)

abbrev Keeps : KeyManager → KeyManager → Type 0
Keeps km km' = Invariant.IsValid km' × SameServer km km'

add_key-Keeps :
    (km : KeyManager) (ip : ℕ) (key : Bytes)
    → Invariant.IsValid km
    → length key ≡ 32
    → Keeps km (add_key km ip key).0
add_key-Keeps km ip key w h = (
  add_key-IsValid ip key w h,
  add_key_cases (λ r. SameServer km r.0) km ip key (λ full. (refl, refl))
      (λ i e free. (refl, refl)),
)

remove_key-Keeps : (km : KeyManager) (ip : ℕ) → Invariant.IsValid km → Keeps km (remove_key km ip)
remove_key-Keeps km ip w = (
  remove_key-IsValid ip w,
  remove_key_cases (SameServer km) km ip (λ absent. (refl, refl)) (λ i e found. (refl, refl)),
)

perform_handshake-Keeps :
    {s : Sodium} {public_of : Bytes → Bytes} (km : KeyManager) (ip : ℕ) (client_key : Bytes)
    → ExchangeLaws s public_of
    → Invariant.IsValid km
    → Keeps km (perform_handshake s km ip client_key).0
perform_handshake-Keeps {s} km ip client_key laws w =
    perform_handshake_cases (λ r. Keeps km r.0) s km ip client_key (w, (refl, refl))
      (λ secret agreed. add_key-Keeps km ip _ w (length-derive_session_key laws secret []))

command-Keeps :
    {s : Sodium} {public_of : Bytes → Bytes} (c : Command) (nonce : Bytes) (e : Enclave) (ip : ℕ)
    (bytes : Bytes)
    → ExchangeLaws s public_of
    → Invariant.IsValid e.manager
    → Keeps e.manager (reference_command s c nonce e ip bytes).0.manager
unfolding reference_command exchange_keys
command-Keeps Command.ping nonce e ip bytes laws w = (w, (refl, refl))
command-Keeps Command.encrypt nonce e ip bytes laws w = (w, (refl, refl))
command-Keeps Command.decrypt nonce e ip bytes laws w = (w, (refl, refl))
command-Keeps Command.remove_key nonce e ip bytes laws w = remove_key-Keeps e.manager ip w
command-Keeps Command.shutdown nonce e ip bytes laws w = (w, (refl, refl))
command-Keeps Command.other nonce e ip bytes laws w = (w, (refl, refl))
command-Keeps Command.add_key nonce e ip bytes laws w = elim (Bool-cases (length bytes == 32)) [
  | inl right ↦ rw right (add_key-Keeps e.manager ip bytes w ((==_iff (length bytes) 32).0 right))
  | inr wrong ↦ rw wrong (w, (refl, refl))
]
command-Keeps Command.handshake nonce e ip bytes laws w = elim (Bool-cases (length bytes == 32)) [
  | inl right ↦ rw right (perform_handshake-Keeps e.manager ip bytes laws w)
  | inr wrong ↦ rw wrong (w, (refl, refl))
]

-- Every request keeps the key table valid, and the server's key pair as it is, whatever it carries.
pub reference-IsValid :
    {s : Sodium} {public_of : Bytes → Bytes} (nonce : Bytes) (e : Enclave) (req : IpcRequest)
    → ExchangeLaws s public_of
    → Invariant.IsValid e.manager
    → Invariant.IsValid (reference s nonce e req).0.manager
      × SameServer e.manager (reference s nonce e req).0.manager
unfolding reference
reference-IsValid nonce e req laws w =
    command-Keeps (ipc_command req.command) nonce e req.vpn_ip req.payload laws w

-- Where the loop over a connection has been left, `enclave_running` is 0; where it has not, a signal
-- makes it 0.
pub serve-signalled :
    (s : Sodium) (ts : List Turn) (e : Enclave) (k : Stream)
    → IfDone (λ p. (signalled p).running ≡ false) (serve s ts e k)
unfolding serve
serve-signalled s [] e k =
    if_tested (IfDone (λ p. (signalled p).running ≡ false)) e.running (λ on. refl) (λ off. off)
serve-signalled s (t ∷ ts) e k =
    if_tested (IfDone (λ p. (signalled p).running ≡ false)) e.running
      (λ on.
        IfDone-bind (λ p. Unit) (λ p. (signalled p).running ≡ false)
          (if t.is_ready then handle_ipc_request s t.nonce t.buffer e k else done (e, k)) _
          (IfDone-any _) (λ p u. serve-signalled s ts p.0 p.1))
      (λ off. off)

-- Once the other side has closed the connection, `select` keeps calling it readable and there is
-- nothing to read: a running enclave, however many turns the loop makes and whichever of them are
-- ready, is still in the loop and still running, with its keys and the stream as they were.
pub serve_closed :
    (s : Sodium) (ts : List Turn) (e : Enclave) (k : Stream)
    → e.running ≡ true
    → k.incoming ≡ []
    → serve s ts e k ≡ done (still_serving e k)
unfolding serve handle_ipc_request
serve_closed s [] e k on h = rw on refl
serve_closed s (t ∷ ts) e k on h = elim (Bool-cases t.is_ready) [
  | inl ready ↦
      rw (ready, receive_request_nothing k (inr (rw h (omega arith))))
        (ground (arith, serve_closed s ts e k on h))
  | inr idle ↦ rw idle (ground (arith, serve_closed s ts e k on h))
]
