-- ===== src/Enclave/Security.antt =====
-- The protection of the enclave's memory: setup_memory_security, disable_core_dumps and
-- setup_seccomp_filter of VPN/src/enclave/enclave_main.c, and destroy_key_manager of
-- VPN/src/enclave/key_manager.c.
use cloud_service.Base.{◌≡◌, refl, Bool, replicate, All}
use cloud_service.Base.{All-replicate}
use cloud_service.Keys.{KeyEntry, KeyManager, max_keys, zero_key, zero_key_entry}
use cloud_service.System.{System, Outcomes, attempt}

module _ (o : Outcomes) where
  -- `mlockall`, whose failure only makes a warning, and `madvise` on no memory; returns 0. The second
  -- part is whether the memory is locked.
  unfoldable pub setup_memory_security : System → System × Bool
  unfolding attempt
  setup_memory_security s = let (s', locked) = attempt o s in ((attempt o s').0, locked)

  -- `setrlimit(RLIMIT_CORE, ...)`: whether it succeeds
  unfoldable pub disable_core_dumps : System → System × Bool
  unfolding attempt
  disable_core_dumps s = attempt o s

-- What protects the enclave's memory. There is no filter of system calls.
pub record Protection : Type 0 where
  pub core_dumps_off : Bool
  pub locked : Bool

-- The three calls of `main`, whose results it does not look at.
unfoldable pub protect : Outcomes → System → System × Protection
unfolding setup_memory_security disable_core_dumps
protect o s =
    let (s1, core_dumps_off) = disable_core_dumps o s in
    let (s2, locked) = setup_memory_security o s1 in
    (s2, record { core_dumps_off = core_dumps_off; locked = locked })

-- `sodium_memzero` over the whole structure
unfoldable pub destroy_key_manager : KeyManager → KeyManager
destroy_key_manager km = record {
  keys = replicate max_keys zero_key_entry;
  count = 0;
  server_private_key = zero_key;
  server_public_key = zero_key;
}

abbrev pub IsZeroEntry : KeyEntry → Type 0
IsZeroEntry e = e ≡ zero_key_entry

-- No key is left: neither the server's nor a client's.
abbrev pub IsErased : KeyManager → Type 0
IsErased km =
    (km.server_private_key ≡ zero_key) × (km.server_public_key ≡ zero_key) × All IsZeroEntry km.keys

pub destroy_key_manager-IsErased : (km : KeyManager) → IsErased (destroy_key_manager km)
unfolding destroy_key_manager
destroy_key_manager-IsErased km =
    (refl, refl, All-replicate IsZeroEntry max_keys zero_key_entry refl)
