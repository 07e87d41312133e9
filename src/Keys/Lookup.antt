-- ===== src/Keys/Lookup.antt =====
-- The key table as a map from VPN addresses to keys.
use mathlib.Core.Option
use cloud_service.Base.{
  ℕ, ◌+◌, ◌<◌, ◌≤◌, ◌≡◌, ◌≢◌, refl, ap, true, false, not, Option, none, some, inl, inr, [], arith,
  length, get_elem?, set, take_all, sym, if◌then◌else◌, ◌==◌, ltb, Bool-cases, Option-cases,
  ==_refl, ==_iff, ltb→lt, ltb→le,
}
use cloud_service.Crypto.{Sodium, crypto_ecdh, crypto_derive_session_key, crypto_key_size}
use cloud_service.Keys.{
  max_keys, KeyEntry, KeyManager, zero_key, is_active, has_key_ip, new_key, key_at, add_key,
  get_key, remove_key, perform_handshake,
}
use cloud_service.Keys.Invariant.{IsValid, add_key_cases, remove_key_cases}
use cloud_service.Slots.{
  find_slot-none-count_if, find_slot, count_if, find_slot-get_elem?, find_slot-set_self,
  find_slot-set_other, find_slot-set_before, find_slot-set_after, find_slot-set_off,
  find_slot-some-count_if,
}
use cloud_service.Wire.{Bytes}

-- Which of two keys of one address a lookup sees: the one in the lower slot.
abbrev pub lower_slot : ℕ → Bytes → Option (ℕ × KeyEntry) → Option Bytes
lower_slot j key none = some key
lower_slot j key (some (i, e)) = if ltb i j then some e.session_key else some key

-- Slots that differ stand at different indices.
other_index :
    (km : KeyManager) (i k : ℕ) (e e' : KeyEntry)
    → get_elem? km.keys i ≡ some e
    → get_elem? km.keys k ≡ some e'
    → e.active ≢ e'.active
    → k ≤ i
    → k < i
other_index km i k e e' g g' differ h = elim (Bool-cases (ltb k i)) [
  | inl below ↦ ltb→lt k i below
  | inr above ↦
      let same : k ≡ i = omega (arith, ltb→le k i above) in
      let eq : e' ≡ e = cc (ap (λ n. get_elem? km.keys n) same, g, g') in
      absurd (differ (ap (λ x. x.active) (sym eq)))
]

-- `add_key` at the first free slot `j`.
module _ (km : KeyManager) (ip : ℕ) (key : Bytes) {j : ℕ} {free : KeyEntry}
    (first_free : find_slot (λ x. not (is_active x)) km.keys ≡ some (j, free)) where
  add_key_placed :
      add_key km ip key
      ≡ (record km { keys = set km.keys j (new_key ip key); count = km.count + 1 }, true)
  unfolding add_key
  add_key_placed = rw (first_free, add_key) refl

  slot_facts :
      (get_elem? km.keys j ≡ some free) × (not (is_active free) ≡ true) × (j < length km.keys)
  slot_facts = find_slot-get_elem? (λ x. not (is_active x)) km.keys j free first_free

  -- While a slot is free, adding a key for one address leaves what every other address looks up as
  -- it was.
  pub get_key-add_key_other :
      (ip' : ℕ) → ip ≢ ip' → get_key (add_key km ip key).0 ip' ≡ get_key km ip'
  unfolding get_key
  get_key-add_key_other ip' differ = rw add_key_placed (
      ap (Option.map key_at) (
        find_slot-set_other (has_key_ip ip') km.keys j free (new_key ip key) slot_facts.0
          (ground (arith, slot_facts.1)) (ground arith)))

  -- While a slot is free, a lookup after `add_key` of a key of 32 bytes finds that key, unless an
  -- older key of the address stands in a lower slot: then it still finds the older one.
  pub get_key-add_key :
      length key ≡ crypto_key_size
      → get_key (add_key km ip key).0 ip ≡ lower_slot j key (find_slot (has_key_ip ip) km.keys)
  unfolding get_key
  get_key-add_key whole = elim (Option-cases (find_slot (has_key_ip ip) km.keys)) [
    | inl absent ↦
        rw
          (
            add_key_placed,
            absent,
            find_slot-set_self (has_key_ip ip) km.keys j (new_key ip key) absent (==_refl ip)
                slot_facts.2,
          )
          (ap some (take_all 32 key (omega arith)))
    | inr ((i, e), present) ↦
        let f = find_slot-get_elem? (has_key_ip ip) km.keys i e present in
        rw (add_key_placed, present)
          (elim (Bool-cases (ltb i j)) [
            | inl below ↦
                rw
                  (
                    below,
                    find_slot-set_before (has_key_ip ip) km.keys i j e (new_key ip key) present
                        (ltb→lt i j below),
                  )
                  refl
            | inr above ↦
                rw
                  (
                    above,
                    find_slot-set_after (has_key_ip ip) km.keys i j e (new_key ip key) present
                        (other_index km i j e free f.0 slot_facts.0
                          (ground (arith, f.1, slot_facts.1)) (ltb→le i j above))
                        (==_refl ip),
                  )
                  (ap some (take_all 32 key (omega arith)))
          ])
  ]

pub has_free_key :
    {km : KeyManager}
    → IsValid km
    → km.count < max_keys
    → (i : ℕ) × (e : KeyEntry) × (find_slot (λ x. not (is_active x)) km.keys ≡ some (i, e))
has_free_key {km} w room = elim (Option-cases (find_slot (λ x. not (is_active x)) km.keys)) [
  | inl full ↦
      absurd (omega (arith, find_slot-none-count_if is_active km.keys full, w.counted, w.capacity))
  | inr ((i, e), free) ↦ (i, e, free)
]

-- A lookup that sees one of two keys sees a key.
pub lower_slot-some :
    (j : ℕ) (key : Bytes) (found : Option (ℕ × KeyEntry)) → lower_slot j key found ≢ none
lower_slot-some j key none h = absurd (cc h)
lower_slot-some j key (some (i, e)) h = elim (Bool-cases (ltb i j)) [
  | inl below ↦ absurd (ground (arith, h, below))
  | inr above ↦ absurd (ground (arith, h, above))
]

-- While the table has room, a key of 32 bytes is stored, and its address has a key from then on.
pub add_key-stored :
    {km : KeyManager} (ip : ℕ) (key : Bytes)
    → IsValid km
    → km.count < max_keys
    → length key ≡ crypto_key_size
    → ((add_key km ip key).1 ≡ true) × (get_key (add_key km ip key).0 ip ≢ none)
add_key-stored {km} ip key w room whole =
    let (j, free, first_free) = has_free_key w room in
    (
      ap (λ r. r.1) (add_key_placed km ip key first_free),
      rw (get_key-add_key km ip key first_free whole) (lower_slot-some j key _),
    )

-- When every slot holds a key and the key exchange succeeds, the handshake leaves the table as it
-- is and still reports success, with a session key that it has not stored.
pub perform_handshake_full :
    (s : Sodium) (km : KeyManager) (ip : ℕ) (client_public_key secret : Bytes)
    → count_if is_active km.keys ≡ length km.keys
    → crypto_ecdh s km.server_private_key client_public_key ≡ some secret
    → perform_handshake s km ip client_public_key
      ≡ (km, some (crypto_derive_session_key s secret []))
unfolding perform_handshake
perform_handshake_full s km ip client_public_key secret full shared =
    rw (shared, perform_handshake)
      (ap (λ (k : KeyManager). (k, some (crypto_derive_session_key s secret [])))
        (add_key_cases (λ r. r.0 ≡ km) km ip (crypto_derive_session_key s secret []) (λ h. refl)
          (λ i e free. absurd (omega (arith, find_slot-some-count_if is_active km.keys i e free)))))

get_key-remove_key_self :
    (km : KeyManager) (ip : ℕ)
    → count_if (has_key_ip ip) km.keys ≤ 1
    → get_key (remove_key km ip) ip ≡ none
unfolding get_key
get_key-remove_key_self km ip u =
    remove_key_cases (λ k. get_key k ip ≡ none) km ip (λ absent. rw absent refl)
      λ i e found.
        let f = find_slot-get_elem? (has_key_ip ip) km.keys i e found in
        rw
          (find_slot-set_off (has_key_ip ip) km.keys i e
            (record e { session_key = zero_key; active = false }) f.0 f.1 refl u)
          refl

pub get_key-remove_key_other :
    (km : KeyManager) (ip ip' : ℕ) → ip ≢ ip' → get_key (remove_key km ip) ip' ≡ get_key km ip'
unfolding get_key
get_key-remove_key_other km ip ip' differ =
    remove_key_cases (λ k. get_key k ip' ≡ get_key km ip') km ip (λ absent. refl)
      λ i e found.
        let f = find_slot-get_elem? (has_key_ip ip) km.keys i e found in
        ap (Option.map key_at) (
          find_slot-set_other (has_key_ip ip') km.keys i e
            (record e { session_key = zero_key; active = false }) f.0 (ground (arith, f.1)) refl)

-- With at most one key for the address, `remove_key` takes that address's key away; it never touches
-- another address's.
pub get_key-remove_key :
    (km : KeyManager) (ip ip' : ℕ)
    → count_if (has_key_ip ip) km.keys ≤ 1
    → get_key (remove_key km ip) ip' ≡ (if ip == ip' then none else get_key km ip')
get_key-remove_key km ip ip' u = elim (Bool-cases (ip == ip')) [
  | inl same ↦
      let eq : ip ≡ ip' = (==_iff ip ip').0 same in
      rw (same, ← eq) (get_key-remove_key_self km ip u)
  | inr differ ↦ rw differ (get_key-remove_key_other km ip ip' (ground arith))
]
