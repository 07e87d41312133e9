-- ===== src/Keys.antt =====
-- The enclave's key table: VPN/src/enclave/key_manager.c, VPN/include/key_manager.h. A pointer into
-- `km->keys` is an index beside the entry; an `int` that is 0 or -1 is `true` or `false`. The key
-- pair that `crypto_box_keypair` draws is an argument.
pub mod Invariant
pub mod Lookup
use mathlib.Core.Option
use cloud_service.Base.{
  ℕ, ◌+◌, ◌-◌, Bool, true, false, not, ◌&&◌, Option, none, some, List, [], ◌==◌, set, take,
  replicate,
}
use cloud_service.Crypto.{Sodium, crypto_ecdh, crypto_derive_session_key, crypto_key_size}
use cloud_service.Slots.{find_slot}
use cloud_service.Wire.{Bytes}

abbrev pub max_keys : ℕ
max_keys = 256

pub record KeyEntry : Type 0 where
  pub vpn_ip : ℕ
  pub session_key : Bytes
  pub active : Bool

pub record KeyManager : Type 0 where
  pub keys : List KeyEntry
  pub count : ℕ
  pub server_private_key : Bytes
  pub server_public_key : Bytes

-- 32 bytes after `memset` or `sodium_memzero`
abbrev pub zero_key : Bytes
zero_key = replicate crypto_key_size 0

abbrev pub zero_key_entry : KeyEntry
zero_key_entry = record { vpn_ip = 0; session_key = zero_key; active = false }

unfoldable pub init_key_manager : Bytes → Bytes → KeyManager
init_key_manager public_key private_key = record {
  keys = replicate max_keys zero_key_entry;
  count = 0;
  server_private_key = private_key;
  server_public_key = public_key;
}

abbrev pub has_key_ip : ℕ → KeyEntry → Bool
has_key_ip ip e = e.active && e.vpn_ip == ip

abbrev pub is_active : KeyEntry → Bool
is_active e = e.active

abbrev pub new_key : ℕ → Bytes → KeyEntry
new_key ip key = record { vpn_ip = ip; session_key = take crypto_key_size key; active = true }

-- The first free slot takes the key, whether or not the address has one already.
unfoldable pub add_key : KeyManager → ℕ → Bytes → KeyManager × Bool
add_key km ip key = elim (find_slot (λ e. not (is_active e)) km.keys) [
  | none ↦ (km, false)
  | some (i, _) ↦ (record km { keys = set km.keys i (new_key ip key); count = km.count + 1 }, true)
]

abbrev pub key_at : ℕ × KeyEntry → Bytes
key_at (i, e) = e.session_key

unfoldable pub get_key : KeyManager → ℕ → Option Bytes
get_key km ip = Option.map key_at (find_slot (has_key_ip ip) km.keys)

-- `count--` runs only where a key is active (see `Invariant.count-pos`).
unfoldable pub remove_key : KeyManager → ℕ → KeyManager
remove_key km ip = elim (find_slot (has_key_ip ip) km.keys) [
  | none ↦ km
  | some (i, e) ↦ record km {
    keys = set km.keys i (record e { session_key = zero_key; active = false });
    count = km.count - 1;
  }
]

unfoldable pub get_server_public_key : KeyManager → Bytes
get_server_public_key km = take 32 km.server_public_key

-- `none` is the return value -1; `some` is 0 with what `session_key_out` receives. The result of
-- `add_key` is not looked at.
unfoldable pub perform_handshake : Sodium → KeyManager → ℕ → Bytes → KeyManager × Option Bytes
perform_handshake s km ip client_public_key =
    elim (crypto_ecdh s km.server_private_key client_public_key) [
      | none ↦ (km, none)
      | some shared_secret ↦
          let session_key = crypto_derive_session_key s shared_secret [] in
          ((add_key km ip session_key).0, some session_key)
    ]
