-- ===== src/Config/Print.antt =====
-- config_print of VPN/src/common/config.c, as the code points that it prints. `%s` of an array without
-- an end mark reads past it, which is `fault`.
use cloud_service.Base.{zero, suc, Option, none, some, ◌++◌, ◌==◌, if◌then◌else◌}
use cloud_service.Config.{VpnConfig}
use cloud_service.Text.{codes, decimal, string_in}
use cloud_service.Text.Numbers.{ℤ, pos, negsuc, print_int}
use cloud_service.Wire.{Bytes, Run, fault, done, ◌>>=◌}

-- `%s` of an array
abbrev pub print_string : Option Bytes → Run Bytes
print_string none = fault
print_string (some s) = done s

-- `config->auto_reconnect ? "enabled" : "disabled"`
abbrev enabled_text : ℤ → Bytes
enabled_text (pos zero) = codes "disabled"
enabled_text (pos (suc n)) = codes "enabled"
enabled_text (negsuc n) = codes "enabled"

abbrev log_level_text : ℤ → Bytes
log_level_text (pos n) =
    if n == 0
    then codes "ERROR\n"
    else if n == 1
    then codes "WARN\n"
    else if n == 2
    then codes "INFO\n"
    else if n == 3
    then codes "DEBUG\n"
    else print_int (pos n) ++ codes "\n"
log_level_text (negsuc n) = print_int (negsuc n) ++ codes "\n"

-- from `Auto Reconnect` on
abbrev numbers_text : VpnConfig → Bytes
numbers_text config =
    codes "\n  Auto Reconnect:      "
    ++ (enabled_text config.auto_reconnect
        ++ (codes "\n  Max Reconnect:       "
            ++ (print_int config.max_reconnect_attempts
                ++ (codes " attempts\n  Keep-alive Interval: "
                    ++ (print_int config.keepalive_interval
                        ++ (codes " seconds\n  PONG Timeout:        "
                            ++ (print_int config.pong_timeout
                                ++ (codes " seconds\n  Log Level:           "
                                    ++ (log_level_text config.log_level
                                        ++ codes
                                            "═══════════════════════════════════════\n")))))))))

unfoldable pub config_print : VpnConfig → Run Bytes
unfolding string_in decimal print_int
config_print config = do
  server ← print_string (string_in config.server_address)
  name ← print_string (string_in config.username)
  done (
      codes "━━━ VPN Configuration ━━━\n  Server:              "
      ++ (server
          ++ (codes ":"
              ++ (decimal config.server_port
                  ++ (codes "\n  Username:            " ++ (name ++ numbers_text config))))))
