-- ===== src/Tests/Config.antt =====
-- The theorems of the configuration at concrete files.
use cloud_service.Base.{◌≡◌, arith, true, none, some, [], ◌∷◌, replicate}
use cloud_service.Config.{VpnConfig, apply_entry, config_load_from_file, read_lines}
use cloud_service.Config.Arrays.{apply_entry-unterminated}
use cloud_service.Config.Lines.{ReadAs, joined, read_lines-joined}
use cloud_service.Config.Load.{
  Written, IsWritable, configured, entries, lines_of, config_load-entries,
}
use cloud_service.Config.Trim.{EndsPlain}
use cloud_service.Text.{codes, string_in, Without}
use cloud_service.Text.Numbers.{pos, negsuc}
use cloud_service.Wire.{Bytes, done}

abbrev garbage : VpnConfig
garbage = record {
  server_address = replicate 256 7;
  server_port = 0;
  username = replicate 64 7;
  auto_reconnect = pos 0;
  max_reconnect_attempts = pos 0;
  keepalive_interval = pos 0;
  pong_timeout = pos 0;
  log_level = pos 0;
}

abbrev written : Written
written = record {
  address = codes "10.0.0.1";
  port = 51820;
  user = codes "alice";
  reconnect = pos 1;
  attempts = pos 5;
  interval = pos 20;
  timeout = pos 45;
  level = negsuc 0;
}

written-IsWritable : IsWritable written
unfolding Without EndsPlain
written-IsWritable = ground arith

config_load-entries_example :
    config_load_from_file garbage (some (joined (lines_of (entries written))))
    ≡ done (configured garbage written, true)
config_load-entries_example = config_load-entries garbage written written-IsWritable

-- "\tserver_port = 51820 # the port\n"
read_lines-joined_example : ReadAs (codes "a = 1\n\nb") (read_lines 8 (codes "a = 1\n\nb"))
read_lines-joined_example = read_lines-joined 8 (codes "a = 1\n\nb") (omega arith)

abbrev long_name : Bytes
long_name = replicate 70 b'x'

no_nulls : Without 0 long_name
unfolding Without
no_nulls = ground arith

nothing_behind : Without 0 (7 ∷ [])
unfolding Without
nothing_behind = ground arith

apply_entry-unterminated_example :
    (config : VpnConfig) × (apply_entry garbage (codes "username") long_name ≡ done config)
    × (string_in config.username ≡ none)
apply_entry-unterminated_example =
    apply_entry-unterminated garbage long_name no_nulls (omega arith) nothing_behind
