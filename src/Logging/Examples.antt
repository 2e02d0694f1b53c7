-- ===== src/Logging/Examples.antt =====
-- Tests of the log's lines, and the theorems about them at concrete inputs.
use ping_gaurd.Prelude.{
  ℕ, ◌≡◌, refl, true, Text, codes, none, some, List, [], ◌∷◌, ◌++◌, All, leb, length, if◌then◌else◌,
  arith,
}
use ping_gaurd.Logging.{
  LogRecord, default_none, format_json, configure_logging, log_lines, write_record, parents,
}
use ping_gaurd.Logging.Json.{
  hex_digit, escape_unit, short_escape, high_half, low_half, escape_char, escape_text, dump_text,
}
use ping_gaurd.Logging.Reader.{loads}
use ping_gaurd.Logging.Json.{Entry}
use ping_gaurd.Logging.Line.{value_under, IsPrintable, format_json_fields, format_json-IsPrintable}
use ping_gaurd.Logging.Routing.{default_handler, log_lines_once}

-- A quote, a line feed, a letter beyond ASCII and a character beyond the basic plane.
dumped : dump_text (34 ∷ 10 ∷ 0xe9 ∷ 0x1f600 ∷ []) ≡ codes "\"\\\"\\n\\u00e9\\ud83d\\ude00\""
unfolding dump_text escape_text escape_char escape_unit short_escape hex_digit high_half low_half
dumped = refl

nested_name : parents (codes "uvicorn.error.x") ≡ codes "uvicorn" ∷ codes "uvicorn.error" ∷ []
unfolding parents
nested_name = refl

abbrev warning : LogRecord
warning = record {
  levelno = 30;
  levelname = codes "WARNING";
  name = codes "uvicorn.error";
  message = codes "bad" ++ 10 ∷ 34 ∷ 0x1f600 ∷ [];
  request_id = some (some (codes "abcd1234"));
  exc_info = some (codes "Traceback");
}

format_json_fields_example :
    (found : List Entry) × (loads (format_json (codes "2026-09-22") warning) ≡ some found)
    × (value_under (codes "timestamp") found ≡ some (some (codes "2026-09-22")))
    × (value_under (codes "level") found ≡ some (some warning.levelname))
    × (value_under (codes "logger") found ≡ some (some warning.name))
    × (value_under (codes "message") found ≡ some (some warning.message))
    × (value_under (codes "request_id") found ≡ some (default_none warning.request_id))
    × (value_under (codes "exception") found
        ≡ (elim warning.exc_info [ none ↦ none | some trace ↦ some (some trace) ]))
    × (length found ≡ (elim warning.exc_info [ none ↦ 5 | some trace ↦ 6 ]))
format_json_fields_example =
    format_json_fields (codes "2026-09-22") warning (omega arith) (omega arith)

format_json-IsPrintable_example : All IsPrintable (format_json (codes "2026-09-22") warning)
format_json-IsPrintable_example = format_json-IsPrintable (codes "2026-09-22") warning

abbrev number_of : Text → ℕ
number_of level = if leb (length level) 4 then 20 else 30

log_lines_once_example :
    log_lines number_of
      (codes "2026-09-22")
      (configure_logging (λ s. s) (codes "INFO") true none)
      none
      warning
    ≡ (if leb (number_of (codes "INFO")) 30
        then write_record (codes "2026-09-22") none warning (default_handler true none) ∷ []
        else [])
log_lines_once_example =
    log_lines_once (λ s. s) (codes "INFO") true none number_of (codes "2026-09-22") none warning
