-- ===== src/Config/Arrays.antt =====
-- The strings of the configuration in their arrays: VPN/src/common/config.c.
use cloud_service.Base.{◌≡◌, ◌≤◌, refl, none, length, drop, ◌-◌}
use cloud_service.Config.{VpnConfig, apply_entry, username_size}
use cloud_service.Text.{codes, same_string, string_in, Without}
use cloud_service.Text.Strings.{string_in-strncpy_full}
use cloud_service.Wire.{Bytes, done}

-- A user name of 63 bytes or more leaves an array without an end mark, if the memory of the
-- configuration held no null byte in the last place: what reads it as a string reads past it.
pub apply_entry-unterminated :
    (config : VpnConfig) (name : Bytes)
    → Without 0 name
    → 63 ≤ length name
    → Without 0 (drop 63 config.username)
    → (config' : VpnConfig) × (apply_entry config (codes "username") name ≡ done config')
      × (string_in config'.username ≡ none)
unfolding apply_entry same_string
apply_entry-unterminated config name h long stale =
    (_, refl, string_in-strncpy_full config.username name (username_size - 1) h long stale)
