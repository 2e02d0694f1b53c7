-- ===== src/Logging.antt =====
-- app/logging_config.py: the filter, the JSON formatter and the configuration, with what the standard
-- library's `logging` makes of them. `asctime` and the time of the formatter are arguments.
pub mod Json
pub mod Reader
pub mod Strings
pub mod Entries
pub mod Line
pub mod Routing
mod Examples
use ping_gaurd.Prelude.{
  ℕ, Bool, true, false, Text, codes, Option, none, some, List, [], ◌∷◌, ◌++◌, map, text_eq, leb,
  ◌==◌, if◌then◌else◌,
}
use ping_gaurd.Logging.Json.{Entry, dumps}

-- A record of `logging`. `message` is the value of `getMessage()`, `exc_info` the text that
-- `formatException` makes of it; the attribute `request_id` may be missing, or None.
pub record LogRecord : Type 0 where
  pub levelno : ℕ
  pub levelname : Text
  pub name : Text
  pub message : Text
  pub request_id : Option (Option Text)
  pub exc_info : Option Text

-- `RequestIdFilter.filter`, with the value of the context variable.
unfoldable pub filter_request_id : Option Text → LogRecord → LogRecord × Bool
filter_request_id request_id_var r = (record r { request_id = some request_id_var }, true)

abbrev pub default_none : Option (Option Text) → Option Text
default_none none = none
default_none (some v) = v

abbrev pub exception_entry : Option Text → List Entry
exception_entry none = []
exception_entry (some s) = (codes "exception", some s) ∷ []

-- The dictionary `log_entry`.
unfoldable pub log_entry : (now : Text) → LogRecord → List Entry
log_entry now r =
    (codes "timestamp", some now)
    ∷ (codes "level", some r.levelname)
    ∷ (codes "logger", some r.name)
    ∷ (codes "message", some r.message)
    ∷ (codes "request_id", default_none r.request_id)
    ∷ exception_entry r.exc_info

-- `JSONLogFormatter.format`
unfoldable pub format_json : (now : Text) → LogRecord → Text
format_json now r = dumps (log_entry now r)

abbrev pub text_or_none : Option Text → Text
text_or_none none = codes "None"
text_or_none (some s) = s

-- The formatter "standard".
unfoldable pub format_standard : (now : Text) → LogRecord → Text
format_standard now r =
    let line =
      now
      ++ codes " ["
      ++ r.levelname
      ++ codes "] ["
      ++ text_or_none (default_none r.request_id)
      ++ codes "] "
      ++ r.name
      ++ codes ": "
      ++ r.message in
    elim r.exc_info [ none ↦ line | some trace ↦ line ++ 10 ∷ trace ]

pub data Formatter : Type 0 where
  json_formatter standard_formatter : Formatter

-- A handler that writes to the standard output, behind the request ID's filter.
pub record Handler : Type 0 where
  pub formatter : Formatter

pub record Logger : Type 0 where
  pub level : Text
  pub handlers : List Handler
  pub propagate : Bool

pub record LoggingConfig : Type 0 where
  pub root : Logger
  pub loggers : List (Text × Logger)

-- `json` where it is given, else `json_logs`.
abbrev pub as_json : (json_logs : Bool) → (json : Option Bool) → Bool
as_json json_logs none = json_logs
as_json json_logs (some json) = json

unfoldable pub configure_logging :
    (upper : Text → Text) (level : Text) (json_logs : Bool) (json : Option Bool) → LoggingConfig
configure_logging upper level json_logs json =
    let handler : Handler = record {
      formatter = if as_json json_logs json then json_formatter else standard_formatter;
    } in
    let logger : Logger = record {
      level = upper level;
      handlers = handler ∷ [];
      propagate = false;
    } in
    record {
      root = record logger { propagate = true };
      loggers =
          (codes "uvicorn", logger)
          ∷ (codes "uvicorn.error", logger)
          ∷ (codes "uvicorn.access", logger)
          ∷ [];
    }

-- The names of the loggers above a logger, the outermost first.
unfoldable pub parents : Text → List Text
parents [] = []
parents (c ∷ cs) =
    let inner = map (λ s. c ∷ s) (parents cs) in if c == 46 then [] ∷ inner else inner

unfoldable pub find_logger : Text → List (Text × Logger) → Option Logger
find_logger name [] = none
find_logger name ((key, logger) ∷ rest) =
    if text_eq name key then some logger else find_logger name rest

-- `Logger.callHandlers` and `Logger.getEffectiveLevel`, from the outermost name inwards.
unfoldable pub handlers_from : LoggingConfig → List Handler → List Text → List Handler
handlers_from config above [] = above
handlers_from config above (name ∷ names) =
    handlers_from config
      (elim (find_logger name config.loggers) [
        | none ↦ above
        | some logger ↦ logger.handlers ++ (if logger.propagate then above else [])
      ])
      names

unfoldable pub level_from : LoggingConfig → Text → List Text → Text
level_from config above [] = above
level_from config above (name ∷ names) =
    level_from config
      (elim (find_logger name config.loggers) [ none ↦ above | some logger ↦ logger.level ]) names

unfoldable pub write_record : (now : Text) → Option Text → LogRecord → Handler → Text
write_record now request_id_var r handler =
    let (stamped, kept) = filter_request_id request_id_var r in
    elim handler.formatter [
      | json_formatter ↦ format_json now stamped
      | standard_formatter ↦ format_standard now stamped
    ]

-- The lines that a record gives, where `number` is the value of a level's name.
unfoldable pub log_lines :
    (number : Text → ℕ) (now : Text) → LoggingConfig → Option Text → LogRecord → List Text
log_lines number now config request_id_var r =
    let names = parents r.name ++ r.name ∷ [] in
    let lines =
      map (write_record now request_id_var r) (handlers_from config config.root.handlers names) in
    if leb (number (level_from config config.root.level names)) r.levelno then lines else []
