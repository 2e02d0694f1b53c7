-- ===== src/Logging/Routing.antt =====
-- Where a record goes: the loggers' handlers and levels.
use ping_gaurd.Prelude.{
  ℕ, ◌≡◌, refl, Bool, false, Text, codes, Option, none, some, List, [], ◌∷◌, ◌++◌, text_eq, leb,
  if◌then◌else◌, Bool-cases, ◌⊎◌, inl, inr,
}
use ping_gaurd.Logging.{
  LogRecord, Logger, Handler, LoggingConfig, as_json, json_formatter, standard_formatter,
  configure_logging, find_logger, handlers_from, level_from, log_lines, write_record, parents,
}

-- The one handler.
abbrev pub default_handler : (json_logs : Bool) → Option Bool → Handler
default_handler json_logs json = record {
  formatter = if as_json json_logs json then json_formatter else standard_formatter;
}

module _ (upper : Text → Text) (level : Text) (json_logs : Bool) (json : Option Bool) where
  abbrev config : LoggingConfig
  config = configure_logging upper level json_logs json

  abbrev handler : Handler
  handler = default_handler json_logs json

  abbrev uvicorn : Logger
  uvicorn = record { level = upper level; handlers = handler ∷ []; propagate = false }

  find_logger-config :
      (name : Text)
      → (find_logger name config.loggers ≡ none) ⊎ (find_logger name config.loggers ≡ some uvicorn)
  unfolding find_logger configure_logging
  find_logger-config name = elim (Bool-cases (text_eq name (codes "uvicorn"))) [
    | inl a ↦ inr (rw (find_logger, a) refl)
    | inr a ↦ elim (Bool-cases (text_eq name (codes "uvicorn.error"))) [
      | inl b ↦ inr (rw (find_logger, a, b) refl)
      | inr b ↦ elim (Bool-cases (text_eq name (codes "uvicorn.access"))) [
        | inl c ↦ inr (rw (find_logger, a, b, c) refl)
        | inr c ↦ inl (rw (find_logger, a, b, c) refl)
      ]
    ]
  ]

  handlers_from-config :
      (names : List Text) → handlers_from config (handler ∷ []) names ≡ handler ∷ []
  unfolding handlers_from
  handlers_from-config [] = refl
  handlers_from-config (name ∷ names) = elim (find_logger-config name) [
    | inl e ↦ rw (handlers_from, e) (handlers_from-config names)
    | inr e ↦ rw (handlers_from, e) (handlers_from-config names)
  ]

  level_from-config : (names : List Text) → level_from config (upper level) names ≡ upper level
  unfolding level_from
  level_from-config [] = refl
  level_from-config (name ∷ names) = elim (find_logger-config name) [
    | inl e ↦ rw (level_from, e) (level_from-config names)
    | inr e ↦ rw (level_from, e) (level_from-config names)
  ]

  -- With this configuration a record of any logger, uvicorn's and their children included, is
  -- written exactly once if its level reaches the configured one, by the handler with the formatter
  -- that `json`, or else `json_logs`, chooses, and not at all otherwise.
  pub log_lines_once :
      (number : Text → ℕ) (now : Text) (id : Option Text) (r : LogRecord)
      → log_lines number now (configure_logging upper level json_logs json) id r ≡ (
          if leb (number (upper level)) r.levelno
          then write_record now id r (default_handler json_logs json) ∷ []
          else [])
  unfolding log_lines configure_logging
  log_lines_once number now id r =
      let names = parents r.name ++ r.name ∷ [] in
      rw (log_lines, level_from-config names, handlers_from-config names) refl
