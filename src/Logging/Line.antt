-- ===== src/Logging/Line.antt =====
-- A line of the JSON formatter: what a reader of JSON finds in it, and that it is one line.
use ping_gaurd.Prelude.{
  ℕ, ◌/◌, ◌%◌, ◌≤◌, ◌<◌, ◌≡◌, refl, inl, inr, length, text_eq, if◌then◌else◌, Text, codes, Option,
  none, some, List, [], ◌∷◌, ◌++◌, All, All-append, ltb, Bool-cases, Option-cases, arith,
}
use ping_gaurd.Logging.{LogRecord, log_entry, format_json, default_none, exception_entry}
use ping_gaurd.Logging.Json.{
  Entry, quote, hex_digit, escape_unit, short_escape, high_half, low_half, is_ascii, escape_char,
  escape_text, dump_text, dump_value, dump_entry, dump_rest, dumps,
}
use ping_gaurd.Logging.Reader.{loads}
use ping_gaurd.Logging.Strings.{IsScalar}
use ping_gaurd.Logging.Entries.{IsScalarEntry, AreScalar, loads-dumps}

-- A record whose texts have no surrogates.
abbrev pub IsScalarRecord : LogRecord → Type 0
IsScalarRecord r =
    All IsScalar r.levelname
    × (All IsScalar r.name
        × (All IsScalar r.message × (AreScalar (default_none r.request_id) × AreScalar r.exc_info)))

-- A printable character of ASCII; a line feed is none.
abbrev pub IsPrintable : ℕ → Type 0
IsPrintable c = (32 ≤ c) × (c ≤ 126)

exception_entry-IsScalarEntry :
    (trace : Option Text) → AreScalar trace → All IsScalarEntry (exception_entry trace)
exception_entry-IsScalarEntry none k = tt
exception_entry-IsScalarEntry (some s) k = ((omega arith, k), tt)

log_entry-IsScalarEntry :
    (now : Text) (r : LogRecord)
    → All IsScalar now
    → IsScalarRecord r
    → All IsScalarEntry (log_entry now r)
unfolding log_entry
log_entry-IsScalarEntry now r h (level, (name, (message, (id, trace)))) = (
  (omega arith, h),
  (
    (omega arith, level),
    (
      (omega arith, name),
      ((omega arith, message), ((omega arith, id), exception_entry-IsScalarEntry r.exc_info trace)),
    ),
  ),
)

-- The first value under a key.
abbrev pub value_under : Text → List Entry → Option (Option Text)
value_under key [] = none
value_under key ((name, value) ∷ rest) =
    let later = value_under key rest in if text_eq name key then some value else later

pub loads-format_json :
    (now : Text) (r : LogRecord)
    → All IsScalar now
    → IsScalarRecord r
    → loads (format_json now r) ≡ some (log_entry now r)
unfolding format_json
loads-format_json now r h k = loads-dumps (log_entry now r) (log_entry-IsScalarEntry now r h k)

-- A reader of JSON finds in a line the timestamp, the level, the logger, the message and the request ID,
-- or null if the record has none, each under the key of that name; the traceback under `exception` if
-- there is one, and nothing under it otherwise; and no further entry. The texts are those of the record,
-- whatever quotes, backslashes, control characters and other characters they hold, if they have no
-- surrogates.
pub format_json_fields :
    (now : Text) (r : LogRecord)
    → All IsScalar now
    → IsScalarRecord r
    → (found : List Entry) × (loads (format_json now r) ≡ some found)
      × (value_under (codes "timestamp") found ≡ some (some now))
      × (value_under (codes "level") found ≡ some (some r.levelname))
      × (value_under (codes "logger") found ≡ some (some r.name))
      × (value_under (codes "message") found ≡ some (some r.message))
      × (value_under (codes "request_id") found ≡ some (default_none r.request_id))
      × (value_under (codes "exception") found
          ≡ (elim r.exc_info [ none ↦ none | some trace ↦ some (some trace) ]))
      × (length found ≡ (elim r.exc_info [ none ↦ 5 | some trace ↦ 6 ]))
unfolding log_entry
format_json_fields now r h k = elim (Option-cases r.exc_info) [
  | inl none_given ↦ (
    log_entry now r,
    loads-format_json now r h k,
    refl,
    refl,
    refl,
    refl,
    refl,
    ground arith,
    ground arith,
  )
  | inr (trace, e) ↦ (
    log_entry now r,
    loads-format_json now r h k,
    refl,
    refl,
    refl,
    refl,
    refl,
    ground arith,
    ground arith,
  )
]

hex_digit-IsPrintable : (d : ℕ) → d < 16 → IsPrintable (hex_digit d)
unfolding hex_digit
hex_digit-IsPrintable d h = ground arith

escape_unit-IsPrintable : (u : ℕ) → All IsPrintable (escape_unit u)
unfolding escape_unit
escape_unit-IsPrintable u = (
  (omega arith),
  (
    (omega arith),
    (
      hex_digit-IsPrintable (u / 4096 % 16) (omega arith),
      (
        hex_digit-IsPrintable (u / 256 % 16) (omega arith),
        (
          hex_digit-IsPrintable (u / 16 % 16) (omega arith),
          (hex_digit-IsPrintable (u % 16) (omega arith), tt),
        ),
      ),
    ),
  ),
)

short_escape-IsPrintable : (c letter : ℕ) → short_escape c ≡ some letter → IsPrintable letter
unfolding short_escape
short_escape-IsPrintable c letter h = ground arith

escape_char-IsPrintable : (c : ℕ) → All IsPrintable (escape_char c)
unfolding escape_char
escape_char-IsPrintable c = elim (Option-cases (short_escape c)) [
  | inr (letter, short) ↦
      rw (escape_char, short) (omega arith, (short_escape-IsPrintable c letter short, tt))
  | inl plain ↦ elim (Bool-cases (is_ascii c)) [
    | inl ascii ↦ rw (escape_char, plain, ascii) (ground arith)
    | inr other ↦ elim (Bool-cases (ltb c 0x10000)) [
      | inl small ↦ rw (escape_char, plain, other, small) (escape_unit-IsPrintable c)
      | inr large ↦
          rw (escape_char, plain, other, large)
            (All-append IsPrintable (escape_unit (high_half c)) (escape_unit (low_half c))
              (escape_unit-IsPrintable (high_half c)) (escape_unit-IsPrintable (low_half c)))
    ]
  ]
]

escape_text-IsPrintable : (s : Text) → All IsPrintable (escape_text s)
unfolding escape_text
escape_text-IsPrintable [] = tt
escape_text-IsPrintable (c ∷ cs) =
    All-append IsPrintable (escape_char c) (escape_text cs) (escape_char-IsPrintable c)
      (escape_text-IsPrintable cs)

dump_text-IsPrintable : (s : Text) → All IsPrintable (dump_text s)
unfolding dump_text
dump_text-IsPrintable s = (
  omega arith,
  All-append IsPrintable (escape_text s) (quote ∷ []) (escape_text-IsPrintable s) (omega arith, tt),
)

dump_value-IsPrintable : (value : Option Text) → All IsPrintable (dump_value value)
unfolding dump_value
dump_value-IsPrintable none = omega arith
dump_value-IsPrintable (some s) = dump_text-IsPrintable s

dump_entry-IsPrintable : (e : Entry) → All IsPrintable (dump_entry e)
unfolding dump_entry
dump_entry-IsPrintable (key, value) =
    All-append IsPrintable (dump_text key ++ codes ": ") (dump_value value)
      (All-append IsPrintable (dump_text key) (codes ": ") (dump_text-IsPrintable key)
        (omega arith))
      (dump_value-IsPrintable value)

dump_rest-IsPrintable : (es : List Entry) → All IsPrintable (dump_rest es)
unfolding dump_rest
dump_rest-IsPrintable [] = omega arith
dump_rest-IsPrintable (e ∷ es) = (
  omega arith,
  (
    omega arith,
    All-append IsPrintable (dump_entry e) (dump_rest es) (dump_entry-IsPrintable e)
        (dump_rest-IsPrintable es),
  ),
)

dumps-IsPrintable : (es : List Entry) → All IsPrintable (dumps es)
unfolding dumps
dumps-IsPrintable [] = omega arith
dumps-IsPrintable (e ∷ es) = (
  omega arith,
  All-append IsPrintable (dump_entry e) (dump_rest es) (dump_entry-IsPrintable e)
      (dump_rest-IsPrintable es),
)

-- All characters of a line are printable ASCII, whatever the record holds: a message, a request ID or a
-- traceback with line feeds does not end the line.
pub format_json-IsPrintable : (now : Text) (r : LogRecord) → All IsPrintable (format_json now r)
unfolding format_json
format_json-IsPrintable now r = dumps-IsPrintable (log_entry now r)
