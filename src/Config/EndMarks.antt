-- ===== src/Config/EndMarks.antt =====
-- The end marks of the strings in the configuration: `strncpy` in VPN/src/common/config.c and in `main`
-- of VPN/src/client/vpn_client.c never writes the last byte of an array.
use Prim.Native.String.{String}
use cloud_service.Base.{
  ℕ, zero, suc, ◌-◌, ◌≡◌, ◌∙◌, refl, Bool, Option, none, some, inl, inr, List, [], ◌∷◌, ◌++◌, ◌==◌,
  length, take, drop, replicate, arith, if_holds, drop-append, length-replicate, Bool-cases,
}
use cloud_service.Config.{
  VpnConfig, Line, empty, invalid, entry, apply_entry, apply_line, apply_lines,
  config_load_from_file, parse_line, parse_log_level, read_lines, address_size, username_size,
}
use cloud_service.Config.Print.{config_print, print_string}
use cloud_service.Text.{codes, same_string, strncpy, string_in}
use cloud_service.Text.Numbers.{ℤ, pos, atoi, to_uint16}
use cloud_service.Wire.{Bytes, Run, fault, done, ◌>>=◌, IfDone, IfDone-bind}

-- The last byte of each array is null.
abbrev pub EndMarks : VpnConfig → Type 0
EndMarks config =
    (drop (address_size - 1) config.server_address ≡ 0 ∷ [])
    × (drop (username_size - 1) config.username ≡ 0 ∷ [])

drop-filled :
    (n : ℕ) (src rest : Bytes)
    → drop n (take n src ++ (replicate (n - length src) 0 ++ rest)) ≡ rest
drop-filled zero src rest = let none_left : 0 - length src ≡ 0 = omega arith in rw none_left refl
drop-filled (suc n) [] rest =
    let all_left : suc n - 0 ≡ suc n = omega arith in
    rw all_left
      (drop-append (suc n) (replicate (suc n) 0) rest (length-replicate {A = ℕ} (suc n) 0))
drop-filled (suc n) (c ∷ src) rest =
    let less : suc n - suc (length src) ≡ n - length src = omega arith in
    rw less (drop-filled n src rest)

drop-strncpy : (dest src : Bytes) (n : ℕ) → drop n (strncpy dest src n) ≡ drop n dest
unfolding strncpy
drop-strncpy dest src n = drop-filled n src (drop n dest)

-- An array with a null byte holds a string.
string_in-marked : (n : ℕ) (a : Bytes) → drop n a ≡ 0 ∷ [] → (s : Bytes) × (string_in a ≡ some s)
unfolding string_in
string_in-marked zero [] h = absurd (cc h)
string_in-marked (suc n) [] h = absurd (cc h)
string_in-marked zero (c ∷ a) h = let null : c ≡ 0 = cc h in ([], rw null refl)
string_in-marked (suc n) (c ∷ a) h =
    let (s, found) = string_in-marked n a h in
    elim (Bool-cases (c == 0)) [
      | inl null ↦ ([], rw null refl)
      | inr other ↦ (c ∷ s, rw (other, found) refl)
    ]

both_printed :
    (r r' : Option Bytes) (f : Bytes → Bytes → Bytes) {s s' : Bytes}
    → r ≡ some s
    → r' ≡ some s'
    → (text : Bytes) × ((print_string r >>= (λ a. print_string r' >>= (λ b. done (f a b))))
        ≡ done text)
both_printed none r' f h h' = absurd (cc h)
both_printed (some a) none f h h' = absurd (cc h')
both_printed (some a) (some b) f h h' = (f a b, refl)

-- With end marks, printing the configuration does not fault.
pub config_print-EndMarks :
    (config : VpnConfig) → EndMarks config → (text : Bytes) × (config_print config ≡ done text)
unfolding config_print
config_print-EndMarks config (address, name) =
    let (s, found) = string_in-marked (address_size - 1) config.server_address address in
    let (s', found') = string_in-marked (username_size - 1) config.username name in
    both_printed (string_in config.server_address) (string_in config.username) _ found found'

-- The address and the name are the only arrays, and both are written by `strncpy`.
abbrev Strings : VpnConfig → VpnConfig → Type 0
Strings config config' =
    (drop (address_size - 1) config'.server_address ≡ drop (address_size - 1) config.server_address)
    × (drop (username_size - 1) config'.username ≡ drop (username_size - 1) config.username)

marked : (config config' : VpnConfig) → Strings config config' → EndMarks config → EndMarks config'
marked config config' (d, d') (a, n) = (d ∙ a, d' ∙ n)

set_number :
    (config : VpnConfig) (r : Run ℤ) (f : ℤ → VpnConfig)
    → ((z : ℤ) → Strings config (f z))
    → IfDone (Strings config) (r >>= (λ z. done (f z)))
set_number config fault f h = tt
set_number config (done z) f h = h z

-- What an entry may do: set the address, set the name, set a number, or nothing.
apply_entry_cases :
    (Φ : Run VpnConfig → Type 0) (config : VpnConfig) (key value : Bytes)
    → Φ (
        done (record config {
          server_address = strncpy config.server_address value (address_size - 1);
        }))
    → Φ (done (record config { username = strncpy config.username value (username_size - 1) }))
    → ((r : Run ℤ) (f : ℤ → VpnConfig)
        → ((z : ℤ) → Strings config (f z))
        → Φ (r >>= (λ z. done (f z))))
    → Φ (done config)
    → Φ (apply_entry config key value)
unfolding apply_entry
apply_entry_cases Φ config key value address name number same =
    if_holds Φ (is_key "server_address") address (
      if_holds Φ (is_key "server_port")
        (number (atoi value) (λ z. record config { server_port = to_uint16 z }) (λ z. kept))
        (if_holds Φ (is_key "username") name (
          if_holds Φ (is_key "auto_reconnect")
            (number (atoi value) (λ z. record config { auto_reconnect = z }) (λ z. kept))
            (if_holds Φ (is_key "max_reconnect_attempts")
              (number (atoi value) (λ z. record config { max_reconnect_attempts = z }) (λ z. kept))
              (if_holds Φ (is_key "keepalive_interval")
                (number (atoi value) (λ z. record config { keepalive_interval = z }) (λ z. kept))
                (if_holds Φ (is_key "pong_timeout")
                  (number (atoi value) (λ z. record config { pong_timeout = z }) (λ z. kept))
                  (if_holds Φ (is_key "log_level")
                    (number (parse_log_level value) (λ z. record config { log_level = z })
                      (λ z. kept))
                    same)))))))
  where
    is_key : String → Bool
    is_key name = same_string key (codes name)

    kept : Strings config config
    kept = (refl, refl)

apply_entry-Strings :
    (config : VpnConfig) (key value : Bytes)
    → IfDone (Strings config) (apply_entry config key value)
apply_entry-Strings config key value =
    apply_entry_cases (IfDone (Strings config)) config key value
      (drop-strncpy config.server_address value (address_size - 1), refl)
      (refl, drop-strncpy config.username value (username_size - 1)) (set_number config)
      (refl, refl)

apply_line-Strings :
    (config : VpnConfig) (line : Line) → IfDone (Strings config) (apply_line config line)
apply_line-Strings config empty = (refl, refl)
apply_line-Strings config invalid = (refl, refl)
apply_line-Strings config (entry key value) = apply_entry-Strings config key value

apply_lines-EndMarks :
    (config : VpnConfig) (lines : List Bytes)
    → EndMarks config
    → IfDone EndMarks (apply_lines config lines)
unfolding apply_lines
apply_lines-EndMarks config [] h = h
apply_lines-EndMarks config (line ∷ lines) h =
    IfDone-bind (Strings config) EndMarks (apply_line config (parse_line line)) _
      (apply_line-Strings config (parse_line line))
      (λ config' kept. apply_lines-EndMarks config' lines (marked config config' kept h))

-- Whatever the file holds, loading it leaves the end marks that were there.
pub config_load-EndMarks :
    (config : VpnConfig) (file : Option Bytes)
    → EndMarks config
    → IfDone (λ r. EndMarks r.0) (config_load_from_file config file)
unfolding config_load_from_file
config_load-EndMarks config none h = h
config_load-EndMarks config (some file) h =
    IfDone-bind EndMarks (λ r. EndMarks r.0) (apply_lines config (read_lines (length file) file)) _
      (apply_lines-EndMarks config (read_lines (length file) file) h) (λ config' h'. h')

-- As does setting the server's address.
pub set_address-EndMarks :
    (config : VpnConfig) (address : Bytes)
    → EndMarks config
    → EndMarks (record config {
      server_address = strncpy config.server_address address (address_size - 1);
    })
set_address-EndMarks config address (a, n) =
    (drop-strncpy config.server_address address (address_size - 1) ∙ a, n)

-- As does the default configuration.
pub default-EndMarks :
    (stale : VpnConfig)
    → EndMarks stale
    → EndMarks (record {
      server_address = strncpy stale.server_address (codes "127.0.0.1") (address_size - 1);
      server_port = 51820;
      username = strncpy stale.username (codes "vpn_user") (username_size - 1);
      auto_reconnect = pos 1;
      max_reconnect_attempts = pos 10;
      keepalive_interval = pos 30;
      pong_timeout = pos 60;
      log_level = pos 2;
    })
default-EndMarks stale (a, n) = (
  drop-strncpy stale.server_address (codes "127.0.0.1") (address_size - 1) ∙ a,
  drop-strncpy stale.username (codes "vpn_user") (username_size - 1) ∙ n,
)
