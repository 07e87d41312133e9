-- ===== src/Logger.antt =====
-- The log: VPN/src/common/logger.c. `strftime` and what the time is are the argument `now`, the text of
-- the current time; the message stands with its arguments filled in. The result is what is printed.
use cloud_service.Base.{
  ℕ, ◌≤◌, ◌≡◌, ◌⊎◌, inl, inr, refl, arith, ltb→le, le→ltb, Bool-cases, [], ◌++◌, ltb, if◌then◌else◌,
}
use cloud_service.Text.{codes}
use cloud_service.Wire.{Bytes}

pub data LogLevel : Type 0 where
  log_error : LogLevel
  log_warn : LogLevel
  log_info : LogLevel
  log_debug : LogLevel

abbrev pub level_number : LogLevel → ℕ
level_number log_error = 0
level_number log_warn = 1
level_number log_info = 2
level_number log_debug = 3

abbrev pub level_name : LogLevel → Bytes
level_name log_error = codes "ERROR"
level_name log_warn = codes "WARN"
level_name log_info = codes "INFO"
level_name log_debug = codes "DEBUG"

-- `threshold` is `g_log_level`, the number that `log_set_level` was given last.
unfoldable pub log_print : ℕ → Bytes → LogLevel → Bytes → Bytes
log_print threshold now level message =
    if ltb threshold (level_number level)
    then []
    else codes "["
      ++ (now ++ (codes "] [" ++ (level_name level ++ (codes "] " ++ (message ++ codes "\n")))))

-- A higher threshold prints a message alike or prints what was not printed.
log_print-more :
    (threshold threshold' : ℕ) (now message : Bytes) (level : LogLevel)
    → threshold ≤ threshold'
    → (log_print threshold now level message ≡ [])
      ⊎ (log_print threshold now level message ≡ log_print threshold' now level message)
unfolding log_print
log_print-more threshold threshold' now message level h =
    elim (Bool-cases (ltb threshold (level_number level))) [
      | inl quiet ↦ rw quiet (inl refl)
      | inr printed ↦
          let le : level_number level ≤ threshold = ltb→le threshold (level_number level) printed in
          rw (printed, le→ltb threshold' (level_number level) (omega arith)) (inr refl)
    ]
