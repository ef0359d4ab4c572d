-- ===== src/Cmd/Logger.antt =====
-- cmd/main.go: setLogger and getLogLevel, up to handing the options to the logger.
use spire_controller_manager.Prelude.{
  Str, codes, str_eq, is_empty, Option, none, some, if◌then◌else◌,
}
use spire_controller_manager.Prelude.Results.{Result, ok, err, ◌>>=◌}
use spire_controller_manager.Cmd.{
  Environment, LogError, invalid_log_level, unrecognized_log_encoding,
}

-- zap.Options, as far as the flags and the configuration set it
pub record ZapOptions (env : Environment) : Type 0 where
  pub level : Option env.Level
  pub encoder : Option env.Encoder

module _ (env : Environment) where
  -- the switch, on the level in lower case
  level_named : Str → Result LogError env.Level
  level_named s =
      if str_eq s (codes "debug")
      then ok env.debug_level
      else if str_eq s (codes "warn")
      then ok env.warn_level
      else if str_eq s (codes "error")
      then ok env.error_level
      else if str_eq s (codes "info")
      then ok env.info_level
      else err invalid_log_level

  unfoldable pub get_log_level : Str → Result LogError env.Level
  unfolding level_named
  get_log_level log_level = level_named (env.to_lower log_level)

  encoder_named : Str → Result LogError env.Encoder
  encoder_named s =
      if str_eq s (codes "console")
      then ok env.console_encoder
      else if str_eq s (codes "json")
      then ok env.json_encoder
      else err unrecognized_log_encoding

  -- if logLevel != "" && opts.Level == nil
  level_or : Option env.Level → Str → Result LogError (Option env.Level)
  unfolding get_log_level
  level_or (some l) log_level = ok (some l)
  level_or none log_level =
      if is_empty log_level then ok none else (get_log_level log_level >>= λ l. ok (some l))

  -- if logEncoding != "" && opts.Encoder == nil
  encoder_or : Option env.Encoder → Str → Result LogError (Option env.Encoder)
  unfolding encoder_named
  encoder_or (some e) log_encoding = ok (some e)
  encoder_or none log_encoding =
      if is_empty log_encoding then ok none else (encoder_named log_encoding >>= λ e. ok (some e))

  unfoldable pub set_logger : ZapOptions env → Str → Str → Result LogError (ZapOptions env)
  unfolding level_or encoder_or
  set_logger opts log_level log_encoding = level_or opts.level log_level >>= λ l.
      encoder_or opts.encoder log_encoding >>= λ e. ok record { level = l; encoder = e }
