-- ===== src/Config/Load.antt =====
-- Whole files that config_load_from_file of VPN/src/common/config.c reads.
use cloud_service.Base.{
  ℕ, suc, ◌+◌, ◌-◌, ◌%◌, ◌^◌, ◌<◌, ◌≤◌, ◌≡◌, refl, ap, sym, ◌∙◌, true, some, List, [], ◌∷◌, ◌++◌,
  length, arith, length-append,
}
use cloud_service.Config.{
  VpnConfig, entry, parse_line, apply_entry, apply_lines, config_load_from_file, address_size,
  username_size,
}
use cloud_service.Config.Entries.{append_nil, Without-append, entry_text, parse_line-entry}
use cloud_service.Config.Lines.{All, IsLine, joined, read_lines-lines}
use cloud_service.Config.Values.{
  IsKey, IsValue, apply-auto_reconnect, apply-keepalive_interval, apply-log_level,
  apply-max_reconnect_attempts, apply-pong_timeout, apply-server_address, apply-server_port,
  apply-username, auto_reconnect-IsKey, keepalive_interval-IsKey, log_level-IsKey,
  max_reconnect_attempts-IsKey, pong_timeout-IsKey, print_int-IsValue, server_address-IsKey,
  server_port-IsKey, username-IsKey,
}
use cloud_service.Config.Trim.{AllSpaces}
use cloud_service.Text.{codes, strncpy, Without}
use cloud_service.Text.Numbers.{ℤ, pos, print_int, IsInt}
use cloud_service.Wire.{Bytes, Run, fault, done, ◌>>=◌}

-- an entry on a line of its own
abbrev pub line : Bytes → Bytes → Bytes
line key value = entry_text key [] [] value ++ (b'\n' ∷ [])

line-IsLine : (key value : Bytes) → IsKey key → IsValue value → IsLine (line key value)
unfolding Without
line-IsLine key value (word, no_equals, no_newline, short) (word', no_newline', short') =
    let small : length (entry_text key [] [] value) ≡ length key + suc (length value) =
      length-append key (b'=' ∷ value) in
    (entry_text key [] [] value, refl, plain, omega arith)
  where
    plain : Without b'\n' (entry_text key [] [] value)
    plain = Without-append b'\n' key (b'=' ∷ value) no_newline (refl, no_newline')

parse_line-line :
    (key value : Bytes) → IsKey key → IsValue value → parse_line (line key value) ≡ entry key value
unfolding AllSpaces
parse_line-line key value (word, no_equals, no_newline, short) (word', no_newline', short') =
    ap parse_line (sym (append_nil (line key value)))
    ∙ parse_line-entry [] [] [] (b'\n' ∷ []) key value [] tt tt tt (refl, tt) word no_equals word'
        tt

-- What a file can say of each key.
pub record Written : Type 0 where
  pub address : Bytes
  pub port : ℕ
  pub user : Bytes
  pub reconnect : ℤ
  pub attempts : ℤ
  pub interval : ℤ
  pub timeout : ℤ
  pub level : ℤ

abbrev pub IsWritable : Written → Type 0
IsWritable w =
    IsValue w.address
    × (w.port < 2 ^ 16)
    × IsValue w.user
    × IsInt w.reconnect
    × IsInt w.attempts
    × IsInt w.interval
    × IsInt w.timeout
    × IsInt w.level

abbrev pub entries : Written → List (Bytes × Bytes)
entries w =
    (codes "server_address", w.address)
    ∷ (codes "server_port", print_int (pos w.port))
    ∷ (codes "username", w.user)
    ∷ (codes "auto_reconnect", print_int w.reconnect)
    ∷ (codes "max_reconnect_attempts", print_int w.attempts)
    ∷ (codes "keepalive_interval", print_int w.interval)
    ∷ (codes "pong_timeout", print_int w.timeout)
    ∷ (codes "log_level", print_int w.level)
    ∷ []

unfoldable pub lines_of : List (Bytes × Bytes) → List Bytes
lines_of [] = []
lines_of ((key, value) ∷ es) = line key value ∷ lines_of es

-- the configuration that then holds
abbrev pub configured : VpnConfig → Written → VpnConfig
configured config w = record {
  server_address = strncpy config.server_address w.address (address_size - 1);
  server_port = w.port;
  username = strncpy config.username w.user (username_size - 1);
  auto_reconnect = w.reconnect;
  max_reconnect_attempts = w.attempts;
  keepalive_interval = w.interval;
  pong_timeout = w.timeout;
  log_level = w.level;
}

unfoldable AllEntries : List (Bytes × Bytes) → Type 0
AllEntries [] = Unit
AllEntries ((key, value) ∷ es) = IsKey key × IsValue value × AllEntries es

unfoldable apply_entries : VpnConfig → List (Bytes × Bytes) → Run VpnConfig
apply_entries config [] = done config
apply_entries config ((key, value) ∷ es) =
    apply_entry config key value >>= (λ config'. apply_entries config' es)

bind_cong :
    {A B : Type 0} (r : Run A) (f g : A → Run B) → ((a : A) → f a ≡ g a) → (r >>= f) ≡ (r >>= g)
bind_cong fault f g h = refl
bind_cong (done a) f g h = h a

apply_lines-lines_of :
    (config : VpnConfig) (es : List (Bytes × Bytes))
    → AllEntries es
    → apply_lines config (lines_of es) ≡ apply_entries config es
unfolding apply_lines lines_of apply_entries AllEntries
apply_lines-lines_of config [] h = refl
apply_lines-lines_of config ((key, value) ∷ es) (k, v, h) =
    rw (parse_line-line key value k v, apply_lines)
      (bind_cong (apply_entry config key value) (λ c. apply_lines c (lines_of es))
        (λ c. apply_entries c es) (λ c. apply_lines-lines_of c es h))

lines_of-IsLine : (es : List (Bytes × Bytes)) → AllEntries es → All IsLine (lines_of es)
unfolding lines_of All AllEntries
lines_of-IsLine [] h = tt
lines_of-IsLine ((key, value) ∷ es) (k, v, h) = (line-IsLine key value k v, lines_of-IsLine es h)

entries-AllEntries : (w : Written) → IsWritable w → AllEntries (entries w)
unfolding AllEntries
entries-AllEntries w (address, port, user, reconnect, attempts, interval, timeout, level) =
    let value : (z : ℤ) → IsInt z → IsValue (print_int z) = λ z h. print_int-IsValue z h in
    (
      server_address-IsKey,
      address,
      (
        server_port-IsKey,
        value (pos w.port) (omega arith),
        (
          username-IsKey,
          user,
          (
            auto_reconnect-IsKey,
            value w.reconnect reconnect,
            (
              max_reconnect_attempts-IsKey,
              value w.attempts attempts,
              (
                keepalive_interval-IsKey,
                value w.interval interval,
                (
                  pong_timeout-IsKey,
                  value w.timeout timeout,
                  (log_level-IsKey, value w.level level, tt),
                ),
              ),
            ),
          ),
        ),
      ),
    )

apply_entries-entries :
    (config : VpnConfig) (w : Written)
    → IsWritable w
    → apply_entries config (entries w) ≡ done (configured config w)
unfolding apply_entries
apply_entries-entries config w
      (address, port, user, reconnect, attempts, interval, timeout, level) =
    let small : w.port % 2 ^ 16 ≡ w.port = omega arith in
    rw
      (
        apply-server_address,
        apply-server_port (pos w.port) (omega arith),
        apply-username,
        apply-auto_reconnect w.reconnect reconnect,
        apply-max_reconnect_attempts w.attempts attempts,
        apply-keepalive_interval w.interval interval,
        apply-pong_timeout w.timeout timeout,
        apply-log_level w.level level,
        small,
      )
      refl

length-joined : (lines : List Bytes) → All IsLine lines → length lines ≤ length (joined lines)
unfolding joined All
length-joined [] h = omega arith
length-joined (line ∷ lines) ((text, e, plain, short), h) =
    let size : length line ≡ length text + 1 =
      ap (λ s. length s) e ∙ length-append text (b'\n' ∷ []) in
    omega (arith, length-joined lines h, length-append line (joined lines), size)

-- A text file is loaded line by line.
pub config_load_from_file-lines :
    (config : VpnConfig) (lines : List Bytes)
    → All IsLine lines
    → config_load_from_file config (some (joined lines))
      ≡ (apply_lines config lines >>= (λ config'. done (config', true)))
unfolding config_load_from_file
config_load_from_file-lines config lines h =
    rw (read_lines-lines (length (joined lines)) lines h (length-joined lines h)) refl

-- A file with one line for every key, whose strings are words of at most 255 bytes, whose port
-- fits 16 bits and whose other numbers fit `int`, is read as that configuration, whatever the
-- configuration was before: the two strings as `strncpy` leaves them in their arrays, and each
-- number as it was printed.
pub config_load-entries :
    (config : VpnConfig) (w : Written)
    → IsWritable w
    → config_load_from_file config (some (joined (lines_of (entries w))))
      ≡ done (configured config w, true)
config_load-entries config w h =
    let es : AllEntries (entries w) = entries-AllEntries w h in
    config_load_from_file-lines config (lines_of (entries w)) (lines_of-IsLine (entries w) es)
    ∙ ap (λ r. r >>= (λ config'. done (config', true)))
        (apply_lines-lines_of config (entries w) es ∙ apply_entries-entries config w h)
