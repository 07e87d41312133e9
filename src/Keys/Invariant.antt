-- ===== src/Keys/Invariant.antt =====
-- The representation invariant of the key table, and its preservation by the operations.
use cloud_service.Base.{
  ℕ, ◌+◌, ◌-◌, ◌<◌, ◌≡◌, refl, Bool, true, false, not, Option, none, some, inl, inr, [], arith,
  length, get_elem?, set, sym, ◌∙◌, All, All-set, All-replicate, length-set, length-take,
  length-replicate, Option-cases, &&-eq-true,
}
use cloud_service.Crypto.{
  Sodium, ExchangeLaws, crypto_ecdh, crypto_derive_session_key, crypto_key_size, session_context,
  length-xor_salt,
}
use cloud_service.Keys.{
  KeyEntry, KeyManager, max_keys, zero_key, zero_key_entry, init_key_manager, is_active, has_key_ip,
  new_key, add_key, remove_key, perform_handshake,
}
use cloud_service.Slots.{
  find_slot, count_if, to_count, find_slot-get_elem?, find_slot-none-count_if, count_if-set,
  count_if-pos, count_if-replicate,
}
use cloud_service.Wire.{Bytes}

-- A slot's key has 32 bytes, and a slot that is not in use holds only zeros.
abbrev pub IsSlot : KeyEntry → Type 0
IsSlot e = (length e.session_key ≡ crypto_key_size) × (e.active ≡ false → e.session_key ≡ zero_key)

-- 256 slots, `count` of them active, and no key left behind in the others.
pub record IsValid (km : KeyManager) : Type 0 where
  pub capacity : length km.keys ≡ max_keys
  pub counted : km.count ≡ count_if is_active km.keys
  pub slots : All IsSlot km.keys
  pub public_key : length km.server_public_key ≡ 32

pub init-IsValid :
    (public_key private_key : Bytes)
    → length public_key ≡ 32
    → IsValid (init_key_manager public_key private_key)
unfolding init_key_manager
init-IsValid public_key private_key h = record {
  capacity = length-replicate max_keys zero_key_entry;
  counted = sym (count_if-replicate is_active max_keys zero_key_entry refl);
  slots = All-replicate IsSlot max_keys zero_key_entry (refl, λ h. refl);
  public_key = h;
}

-- One slot is rewritten with a 32-byte key, and `count` moves as its `active` does.
write-IsValid :
    {km : KeyManager} (i : ℕ) (e v : KeyEntry) (count' : ℕ)
    → IsValid km
    → get_elem? km.keys i ≡ some e
    → IsSlot v
    → count' + to_count e.active ≡ km.count + to_count v.active
    → IsValid (record km { keys = set km.keys i v; count = count' })
write-IsValid {km} i e v count' w g k c = record {
  capacity = omega (arith, length-set km.keys i v, w.capacity);
  counted = omega (arith, count_if-set is_active km.keys i e v g, w.counted);
  slots = All-set IsSlot km.keys i v k w.slots;
  public_key = w.public_key;
}

pub count-pos :
    {km : KeyManager} (i : ℕ) (e : KeyEntry)
    → IsValid km
    → get_elem? km.keys i ≡ some e
    → e.active ≡ true
    → 0 < km.count
count-pos {km} i e w g a = omega (arith, count_if-pos is_active km.keys i e g a, w.counted)

-- What `add_key` leaves, by branch: the table is full and stays, or the first free slot is taken.
pub add_key_cases {ℓ} :
    (P : KeyManager × Bool → Type ℓ) (km : KeyManager) (ip : ℕ) (key : Bytes)
    → (count_if is_active km.keys ≡ length km.keys → P (km, false))
    → ((i : ℕ) (e : KeyEntry)
        → find_slot (λ x. not (is_active x)) km.keys ≡ some (i, e)
        → P (record km { keys = set km.keys i (new_key ip key); count = km.count + 1 }, true))
    → P (add_key km ip key)
unfolding add_key
add_key_cases P km ip key full placed =
    elim (Option-cases (find_slot (λ x. not (is_active x)) km.keys)) [
      | inl none_free ↦
          rw (none_free, add_key) (full (find_slot-none-count_if is_active km.keys none_free))
      | inr ((i, e), free) ↦ rw (free, add_key) (placed i e free)
    ]

pub remove_key_cases {ℓ} :
    (P : KeyManager → Type ℓ) (km : KeyManager) (ip : ℕ)
    → (find_slot (has_key_ip ip) km.keys ≡ none → P km)
    → ((i : ℕ) (e : KeyEntry)
        → find_slot (has_key_ip ip) km.keys ≡ some (i, e)
        → P (record km {
          keys = set km.keys i (record e { session_key = zero_key; active = false });
          count = km.count - 1;
        }))
    → P (remove_key km ip)
unfolding remove_key
remove_key_cases P km ip missing here = elim (Option-cases (find_slot (has_key_ip ip) km.keys)) [
  | inl absent ↦ rw (absent, remove_key) (missing absent)
  | inr ((i, e), found) ↦ rw (found, remove_key) (here i e found)
]

pub add_key-IsValid :
    {km : KeyManager} (ip : ℕ) (key : Bytes)
    → IsValid km
    → length key ≡ crypto_key_size
    → IsValid (add_key km ip key).0
add_key-IsValid {km} ip key w k =
    add_key_cases (λ r. IsValid r.0) km ip key (λ full. w)
      λ i e free.
        let f = find_slot-get_elem? (λ x. not (is_active x)) km.keys i e free in
        write-IsValid i e (new_key ip key) (km.count + 1) w f.0
          (omega (arith, length-take 32 key, k), λ h. cc) (ground (arith, f.1))

-- `remove_key` keeps the key table valid: 256 slots, `count` the number of active ones, a key of 32
-- bytes in each, and in a slot that is not in use, so also in the one just left, only zeros.
pub remove_key-IsValid : {km : KeyManager} (ip : ℕ) → IsValid km → IsValid (remove_key km ip)
remove_key-IsValid {km} ip w =
    remove_key_cases IsValid km ip (λ absent. w)
      λ i e found.
        let f = find_slot-get_elem? (has_key_ip ip) km.keys i e found in
        let a : e.active ≡ true = (&&-eq-true _ _ f.1).0 in
        write-IsValid i e _ (km.count - 1) w f.0 (refl, λ h. refl)
          (ground (arith, a, count-pos i e w f.0 a))

pub length-derive_session_key :
    {s : Sodium} {public_of : Bytes → Bytes}
    → ExchangeLaws s public_of
    → (secret salt : Bytes) → length (crypto_derive_session_key s secret salt) ≡ crypto_key_size
unfolding crypto_derive_session_key
length-derive_session_key {s} laws secret salt =
    length-xor_salt crypto_key_size _ salt
    ∙ laws.kdf_length crypto_key_size 1 session_context secret

-- What the handshake leaves, by branch: no shared secret and no change, or a derived key.
pub perform_handshake_cases {ℓ} :
    (P : KeyManager × Option Bytes → Type ℓ) (s : Sodium) (km : KeyManager) (ip : ℕ)
    (client_public_key : Bytes)
    → P (km, none)
    → ((secret : Bytes)
        → crypto_ecdh s km.server_private_key client_public_key ≡ some secret
        → P (
          (add_key km ip (crypto_derive_session_key s secret [])).0,
          some (crypto_derive_session_key s secret []),
        ))
    → P (perform_handshake s km ip client_public_key)
unfolding perform_handshake
perform_handshake_cases P s km ip client_public_key failed shared =
    elim (Option-cases (crypto_ecdh s km.server_private_key client_public_key)) [
      | inl nothing ↦ rw (nothing, perform_handshake) failed
      | inr (secret, agreed) ↦ rw (agreed, perform_handshake) (shared secret agreed)
    ]

pub length-perform_handshake :
    {s : Sodium} {public_of : Bytes → Bytes}
    → ExchangeLaws s public_of
    → (km : KeyManager) (ip : ℕ) (client_public_key key : Bytes)
    → (perform_handshake s km ip client_public_key).1 ≡ some key
    → length key ≡ crypto_key_size
length-perform_handshake {s} laws km ip client_public_key =
    perform_handshake_cases (λ r. (key : Bytes) → r.1 ≡ some key → length key ≡ crypto_key_size) s
      km ip client_public_key (λ key h. absurd (cc h))
      (λ secret agreed key h.
        let e : crypto_derive_session_key s secret [] ≡ key = cc h in
        rw (← e) (length-derive_session_key laws secret []))

-- With a libsodium that derives keys of the length asked, a handshake keeps the key table valid,
-- whether it fails, finds the table full or stores the key it derives.
pub perform_handshake-IsValid :
    {s : Sodium} {public_of : Bytes → Bytes} {km : KeyManager} (ip : ℕ) (client_public_key : Bytes)
    → ExchangeLaws s public_of
    → IsValid km
    → IsValid (perform_handshake s km ip client_public_key).0
perform_handshake-IsValid {s} {km = km} ip client_public_key laws w =
    perform_handshake_cases (λ r. IsValid r.0) s km ip client_public_key w
      (λ secret agreed. add_key-IsValid ip _ w (length-derive_session_key laws secret []))
