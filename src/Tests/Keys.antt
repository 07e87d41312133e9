-- ===== src/Tests/Keys.antt =====
-- The key table's theorems at tables with one or two keys.
use cloud_service.Base.{◌≤◌, ◌≡◌, refl, arith, [], not, some, replicate, length}
use cloud_service.Crypto.{crypto_derive_session_key, crypto_ecdh}
use cloud_service.Keys.{
  KeyManager, zero_key_entry, init_key_manager, add_key, get_key, perform_handshake, has_key_ip,
  new_key, is_active,
}
use cloud_service.Keys.Lookup.{lower_slot, get_key-add_key, perform_handshake_full}
use cloud_service.Slots.{find_slot, count_if}
use cloud_service.Tests.Toy.{toy, one_key, ip, client_key, server_key}

second_free : find_slot (λ x. not (is_active x)) one_key.keys ≡ some (1, zero_key_entry)
unfolding find_slot add_key init_key_manager
second_free = refl

-- a second key of the same address is not the one that the lookup finds
get_key-add_key_example :
    get_key (add_key one_key ip server_key).0 ip
    ≡ lower_slot 1 server_key (find_slot (has_key_ip ip) one_key.keys)
get_key-add_key_example = get_key-add_key one_key ip server_key second_free refl

at_most_one : count_if (has_key_ip ip) one_key.keys ≤ 1
unfolding count_if add_key init_key_manager find_slot
at_most_one = omega arith

abbrev full_keys : KeyManager
full_keys = record {
  keys = replicate 256 (new_key 7 client_key);
  count = 256;
  server_private_key = server_key;
  server_public_key = server_key;
}

full_count : count_if is_active full_keys.keys ≡ length full_keys.keys
unfolding count_if
full_count = refl

perform_handshake_full_example :
    perform_handshake toy full_keys ip client_key
    ≡ (full_keys, some (crypto_derive_session_key toy (replicate 32 8) []))
unfolding crypto_ecdh
perform_handshake_full_example =
    perform_handshake_full toy full_keys ip client_key (replicate 32 8) full_count refl
