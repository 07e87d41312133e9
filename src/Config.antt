-- ===== src/Config.antt =====
-- The configuration of the client: VPN/src/common/config.c. A file is the list of its bytes; `fault` is
-- `atoi` of a number outside `int`, which C does not define.
pub mod Lines
pub mod Trim
pub mod Entries
pub mod Numerals
pub mod Values
pub mod Load
pub mod Arrays
pub mod Print
pub mod EndMarks
use cloud_service.Base.{
  ℕ, zero, suc, ◌+◌, ◌-◌, Bool, true, false, Option, none, some, List, [], ◌∷◌, ◌++◌, ◌==◌, length,
  if◌then◌else◌, take, drop,
}
use cloud_service.Text.{codes, same_string, is_space, skip_spaces, before, split_at, strncpy}
use cloud_service.Text.Numbers.{ℤ, pos, atoi, to_uint16}
use cloud_service.Wire.{Bytes, Run, fault, done, ◌>>=◌}

-- The strings are the arrays of 256 and 64 bytes that hold them.
pub record VpnConfig : Type 0 where
  pub server_address : Bytes
  pub server_port : ℕ
  pub username : Bytes
  pub auto_reconnect : ℤ
  pub max_reconnect_attempts : ℤ
  pub keepalive_interval : ℤ
  pub pong_timeout : ℤ
  pub log_level : ℤ

abbrev pub address_size : ℕ
address_size = 256

abbrev pub username_size : ℕ
username_size = 64

-- `stale` is what the memory from `malloc` held; `none` is a null pointer.
unfoldable pub config_create_default : Option VpnConfig → Option VpnConfig
config_create_default none = none
config_create_default (some stale) = some (record {
  server_address = strncpy stale.server_address (codes "127.0.0.1") (address_size - 1);
  server_port = 51820;
  username = strncpy stale.username (codes "vpn_user") (username_size - 1);
  auto_reconnect = pos 1;
  max_reconnect_attempts = pos 10;
  keepalive_interval = pos 30;
  pong_timeout = pos 60;
  log_level = pos 2;
})

-- `while (end > start && isspace(*end)) end--`; `end - start` is the number
unfoldable pub trim_end : Bytes → ℕ → ℕ
trim_end start zero = zero
trim_end start (suc e) =
    let rest = trim_end start e in
    elim (drop (suc e) start) [ [] ↦ rest | c ∷ s ↦ if is_space c then rest else suc e ]

-- from `if (*start == 0)` on
abbrev pub trim_from : Bytes → Bytes
trim_from [] = []
trim_from (c ∷ s) = take (suc (trim_end (c ∷ s) (length s))) (c ∷ s)

unfoldable pub trim : Bytes → Bytes
trim str = trim_from (skip_spaces str)

-- up to `n` bytes, up to a newline and with it
unfoldable pub chunk : ℕ → Bytes → Bytes × Bytes
chunk zero s = ([], s)
chunk (suc n) [] = ([], [])
chunk (suc n) (c ∷ s) = let (l, r) = chunk n s in if c == b'\n' then (c ∷ [], s) else (c ∷ l, r)

-- `sizeof(line)`
abbrev pub line_size : ℕ
line_size = 512

-- `fgets(line, sizeof(line), file)`: what is read, and what the file still holds
unfoldable pub fgets : Bytes → Option (Bytes × Bytes)
fgets [] = none
fgets (c ∷ s) = some (chunk (line_size - 1) (c ∷ s))

-- What the loop reads in turn, by fuel.
unfoldable pub read_lines : ℕ → Bytes → List Bytes
read_lines zero file = []
read_lines (suc fuel) file = elim (fgets file) [
  | none ↦ []
  | some (line, rest) ↦ line ∷ read_lines fuel rest
]

pub data Line : Type 0 where
  empty : Line
  invalid : Line
  entry : Bytes → Bytes → Line

abbrev pub with_equals : Option (Bytes × Bytes) → Line
with_equals none = invalid
with_equals (some (key, value)) = entry (trim key) (trim value)

abbrev pub with_text : Bytes → Line
with_text [] = empty
with_text (c ∷ s) = with_equals (split_at b'=' (c ∷ s))

-- A line as the array holds it: a string ends at a null byte, a comment begins at `#`.
unfoldable pub parse_line : Bytes → Line
parse_line line = with_text (trim (before b'#' (before 0 line)))

unfoldable pub parse_log_level : Bytes → Run ℤ
parse_log_level value =
    if same_string value (codes "ERROR")
    then done (pos 0)
    else if same_string value (codes "WARN")
    then done (pos 1)
    else if same_string value (codes "INFO")
    then done (pos 2)
    else if same_string value (codes "DEBUG")
    then done (pos 3)
    else atoi value

-- An unknown key only makes a warning.
unfoldable pub apply_entry : VpnConfig → Bytes → Bytes → Run VpnConfig
apply_entry config key value =
    if same_string key (codes "server_address")
    then done
        (record config { server_address = strncpy config.server_address value (address_size - 1) })
    else if same_string key (codes "server_port")
    then atoi value >>= (λ n. done (record config { server_port = to_uint16 n }))
    else if same_string key (codes "username")
    then done (record config { username = strncpy config.username value (username_size - 1) })
    else if same_string key (codes "auto_reconnect")
    then atoi value >>= (λ n. done (record config { auto_reconnect = n }))
    else if same_string key (codes "max_reconnect_attempts")
    then atoi value >>= (λ n. done (record config { max_reconnect_attempts = n }))
    else if same_string key (codes "keepalive_interval")
    then atoi value >>= (λ n. done (record config { keepalive_interval = n }))
    else if same_string key (codes "pong_timeout")
    then atoi value >>= (λ n. done (record config { pong_timeout = n }))
    else if same_string key (codes "log_level")
    then parse_log_level value >>= (λ n. done (record config { log_level = n }))
    else done config

abbrev pub apply_line : VpnConfig → Line → Run VpnConfig
apply_line config empty = done config
apply_line config invalid = done config
apply_line config (entry key value) = apply_entry config key value

-- the body of the loop, for each line in turn
unfoldable pub apply_lines : VpnConfig → List Bytes → Run VpnConfig
apply_lines config [] = done config
apply_lines config (line ∷ lines) = do
  config' ← apply_line config (parse_line line)
  apply_lines config' lines

-- The file is `none` if `fopen` fails; the second part is whether the return value is 0. Each round
-- reads at least one byte.
unfoldable pub config_load_from_file : VpnConfig → Option Bytes → Run (VpnConfig × Bool)
config_load_from_file config none = done (config, false)
config_load_from_file config (some file) = do
  config' ← apply_lines config (read_lines (length file) file)
  done (config', true)
