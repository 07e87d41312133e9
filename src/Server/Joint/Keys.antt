-- ===== src/Server/Joint/Keys.antt =====
-- The keys that a handshake and a removal leave in the enclave, for the clients of the server:
-- VPN/src/enclave/key_manager.c.
use cloud_service.Base.{
  ℕ, ◌+◌, ◌<◌, ◌≤◌, ◌≡◌, inl, inr, List, [], ◌∷◌, arith, length, Bool-cases, All, ◌==◌, ==_iff,
}
use cloud_service.Clients.{ClientEntry}
use cloud_service.Crypto.{crypto_key_size}
use cloud_service.Keys.{KeyManager, max_keys, add_key, remove_key}
use cloud_service.Keys.Invariant.{IsValid, add_key_cases, remove_key_cases}
use cloud_service.Keys.Lookup.{
  has_free_key, lower_slot-some, get_key-add_key, get_key-add_key_other, get_key-remove_key_other,
}
use cloud_service.Server.Joint.Keyed.{HasKey, OthersHaveKey}
use cloud_service.Wire.{Bytes}

add_key-one :
    {km : KeyManager} (ip : ℕ) (key : Bytes) (e : ClientEntry)
    → IsValid km
    → km.count < max_keys
    → length key ≡ crypto_key_size
    → OthersHaveKey ip km e
    → HasKey (add_key km ip key).0 e
add_key-one {km} ip key e w room whole others on =
    let (j, free, first_free) = has_free_key w room in
    elim (Bool-cases (ip == e.vpn_ip)) [
      | inl same ↦
          rw (← (==_iff ip e.vpn_ip).0 same, get_key-add_key km ip key first_free whole)
            (lower_slot-some j key _)
      | inr differ ↦
          rw (get_key-add_key_other km ip key first_free e.vpn_ip (ground (arith, differ)))
            (others (ground (arith, differ)) on)
    ]

-- While the key table has room, storing a key for one address gives all clients keys, if all but the
-- clients of that address have keys.
pub add_key-HasKey :
    {km : KeyManager} (ip : ℕ) (key : Bytes) (es : List ClientEntry)
    → IsValid km
    → km.count < max_keys
    → length key ≡ crypto_key_size
    → All (OthersHaveKey ip km) es
    → All (HasKey (add_key km ip key).0) es
add_key-HasKey ip key [] w room whole a = tt
add_key-HasKey ip key (e ∷ es) w room whole a =
    (add_key-one ip key e w room whole a.0, add_key-HasKey ip key es w room whole a.1)

pub remove_key-OthersHaveKey :
    (km : KeyManager) (ip : ℕ) (es : List ClientEntry)
    → All (HasKey km) es
    → All (OthersHaveKey ip (remove_key km ip)) es
remove_key-OthersHaveKey km ip [] a = tt
remove_key-OthersHaveKey km ip (e ∷ es) a = (
  λ other on gone.
      a.0 on (rw (get_key-remove_key_other km ip e.vpn_ip (λ same. other (cc same))) at gone),
  remove_key-OthersHaveKey km ip es a.1,
)

pub count-remove_key : (km : KeyManager) (ip : ℕ) → (remove_key km ip).count ≤ km.count
count-remove_key km ip =
    remove_key_cases (λ k. k.count ≤ km.count) km ip (λ absent. omega arith)
      (λ i e found. omega arith)

pub count-add_key :
    (km : KeyManager) (ip : ℕ) (key : Bytes) → (add_key km ip key).0.count ≤ km.count + 1
count-add_key km ip key =
    add_key_cases (λ r. r.0.count ≤ km.count + 1) km ip key (λ full. omega arith)
      (λ i e free. omega arith)
