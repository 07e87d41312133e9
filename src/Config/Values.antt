-- ===== src/Config/Values.antt =====
-- The keys and the values that config_load_from_file of VPN/src/common/config.c knows.
use cloud_service.Base.{
  ℕ, ◌-◌, ◌<◌, ◌≤◌, ◌≡◌, refl, ap, sym, ◌∙◌, false, [], ◌∷◌, ◌==◌, length, arith,
}
use cloud_service.Config.{VpnConfig, apply_entry, parse_log_level, address_size, username_size}
use cloud_service.Config.Entries.{IsWord, append_nil}
use cloud_service.Config.Numerals.{
  print_int-IsWord, print_int-Without, print_int-length, IsNumeral, print_int-IsNumeral,
}
use cloud_service.Config.Trim.{EndsPlain}
use cloud_service.Text.{codes, same_string, strncpy, Without}
use cloud_service.Text.Numbers.{ℤ, print_int, IsInt, atoi, to_uint16, atoi-print_int}
use cloud_service.Wire.{Bytes, done}

-- A key: a word without `=` and newline that leaves room for the value.
abbrev pub IsKey : Bytes → Type 0
IsKey key = IsWord key × Without b'=' key × Without b'\n' key × (length key ≤ 100)

abbrev pub IsValue : Bytes → Type 0
IsValue value = IsWord value × Without b'\n' value × (length value ≤ 255)

pub server_address-IsKey : IsKey (codes "server_address")
unfolding Without EndsPlain
server_address-IsKey = ground arith

pub server_port-IsKey : IsKey (codes "server_port")
unfolding Without EndsPlain
server_port-IsKey = ground arith

pub username-IsKey : IsKey (codes "username")
unfolding Without EndsPlain
username-IsKey = ground arith

pub auto_reconnect-IsKey : IsKey (codes "auto_reconnect")
unfolding Without EndsPlain
auto_reconnect-IsKey = ground arith

pub max_reconnect_attempts-IsKey : IsKey (codes "max_reconnect_attempts")
unfolding Without EndsPlain
max_reconnect_attempts-IsKey = ground arith

pub keepalive_interval-IsKey : IsKey (codes "keepalive_interval")
unfolding Without EndsPlain
keepalive_interval-IsKey = ground arith

pub pong_timeout-IsKey : IsKey (codes "pong_timeout")
unfolding Without EndsPlain
pong_timeout-IsKey = ground arith

pub log_level-IsKey : IsKey (codes "log_level")
unfolding Without EndsPlain
log_level-IsKey = ground arith

pub print_int-IsValue : (z : ℤ) → IsInt z → IsValue (print_int z)
print_int-IsValue z h = (
  print_int-IsWord z,
  print_int-Without z b'\n' (omega arith),
  omega (arith, print_int-length z h),
)

atoi-print : (z : ℤ) → IsInt z → atoi (print_int z) ≡ done z
atoi-print z h = ap atoi (sym (append_nil (print_int z))) ∙ atoi-print_int z [] h tt

-- No name of a level begins like a number.
same_string-numeral :
    (s : Bytes) (c : ℕ) (t : Bytes) → IsNumeral s → 57 < c → same_string s (c ∷ t) ≡ false
unfolding same_string IsNumeral
same_string-numeral [] c t h lt = refl
same_string-numeral (d ∷ s) c t (le, ge, h) lt =
    let other : (d == c) ≡ false = ground arith in rw other refl

pub apply-server_address :
    (v : Bytes) (config : VpnConfig)
    → apply_entry config (codes "server_address") v
      ≡ done (record config { server_address = strncpy config.server_address v (address_size - 1) })
unfolding apply_entry same_string
apply-server_address v config = refl

pub apply-username :
    (v : Bytes) (config : VpnConfig)
    → apply_entry config (codes "username") v
      ≡ done (record config { username = strncpy config.username v (username_size - 1) })
unfolding apply_entry same_string
apply-username v config = refl

module _ (z : ℤ) (h : IsInt z) where
  pub apply-server_port :
      (config : VpnConfig)
      → apply_entry config (codes "server_port") (print_int z)
        ≡ done (record config { server_port = to_uint16 z })
  unfolding apply_entry same_string
  apply-server_port config = rw (atoi-print z h) refl

  pub apply-auto_reconnect :
      (config : VpnConfig)
      → apply_entry config (codes "auto_reconnect") (print_int z)
        ≡ done (record config { auto_reconnect = z })
  unfolding apply_entry same_string
  apply-auto_reconnect config = rw (atoi-print z h) refl

  pub apply-max_reconnect_attempts :
      (config : VpnConfig)
      → apply_entry config (codes "max_reconnect_attempts") (print_int z)
        ≡ done (record config { max_reconnect_attempts = z })
  unfolding apply_entry same_string
  apply-max_reconnect_attempts config = rw (atoi-print z h) refl

  pub apply-keepalive_interval :
      (config : VpnConfig)
      → apply_entry config (codes "keepalive_interval") (print_int z)
        ≡ done (record config { keepalive_interval = z })
  unfolding apply_entry same_string
  apply-keepalive_interval config = rw (atoi-print z h) refl

  pub apply-pong_timeout :
      (config : VpnConfig)
      → apply_entry config (codes "pong_timeout") (print_int z)
        ≡ done (record config { pong_timeout = z })
  unfolding apply_entry same_string
  apply-pong_timeout config = rw (atoi-print z h) refl

  parse_log_level-print : parse_log_level (print_int z) ≡ done z
  unfolding parse_log_level
  parse_log_level-print =
      let no : (c : ℕ) (t : Bytes) → 57 < c → same_string (print_int z) (c ∷ t) ≡ false =
        λ c t lt. same_string-numeral (print_int z) c t (print_int-IsNumeral z) lt in
      rw
        (
          no b'E' (codes "RROR") (omega arith),
          no b'W' (codes "ARN") (omega arith),
          no b'I' (codes "NFO") (omega arith),
          no b'D' (codes "EBUG") (omega arith),
          atoi-print z h,
        )
        refl

  pub apply-log_level :
      (config : VpnConfig)
      → apply_entry config (codes "log_level") (print_int z)
        ≡ done (record config { log_level = z })
  unfolding apply_entry same_string
  apply-log_level config = rw parse_log_level-print refl
