-- ===== src/Logging/Json.antt =====
-- `json.dumps` as app/logging_config.py calls it: on a dictionary of texts and None, with the default
-- separators and `ensure_ascii`.
use ping_gaurd.Prelude.{
  ℕ, ◌+◌, ◌-◌, ◌/◌, ◌%◌, Bool, ◌&&◌, Text, codes, Option, none, some, List, [], ◌∷◌, ◌++◌, ltb, leb,
  ◌==◌, if◌then◌else◌,
}

abbrev pub quote : ℕ
quote = 34

abbrev pub backslash : ℕ
backslash = 92

abbrev pub letter_u : ℕ
letter_u = 117

-- The lower-case digit of a number below 16.
unfoldable pub hex_digit : ℕ → ℕ
hex_digit d = if ltb d 10 then 48 + d else 87 + d

-- `\uXXXX`, for one unit of UTF-16.
unfoldable pub escape_unit : ℕ → Text
escape_unit u =
    backslash
    ∷ letter_u
    ∷ hex_digit (u / 4096 % 16)
    ∷ hex_digit (u / 256 % 16)
    ∷ hex_digit (u / 16 % 16)
    ∷ hex_digit (u % 16)
    ∷ []

-- The characters with an escape of their own, and its letter.
unfoldable pub short_escape : ℕ → Option ℕ
short_escape c =
    if c == quote
    then some quote
    else if c == backslash
    then some backslash
    else if c == 10
    then some 110
    else if c == 13
    then some 114
    else if c == 9
    then some 116
    else if c == 12
    then some 102
    else if c == 8
    then some 98
    else none

unfoldable pub high_half : ℕ → ℕ
high_half c = 0xd800 + (c - 0x10000) / 1024 % 1024

unfoldable pub low_half : ℕ → ℕ
low_half c = 0xdc00 + (c - 0x10000) % 1024

-- What stays as it is: the characters from the space to the tilde.
abbrev pub is_ascii : ℕ → Bool
is_ascii c = leb 32 c && leb c 126

unfoldable pub escape_char : ℕ → Text
escape_char c = elim (short_escape c) [
  | some letter ↦ backslash ∷ letter ∷ []
  | none ↦
      if is_ascii c
      then c ∷ []
      else if ltb c 0x10000
      then escape_unit c
      else escape_unit (high_half c) ++ escape_unit (low_half c)
]

unfoldable pub escape_text : Text → Text
escape_text [] = []
escape_text (c ∷ cs) = escape_char c ++ escape_text cs

unfoldable pub dump_text : Text → Text
dump_text s = quote ∷ escape_text s ++ quote ∷ []

unfoldable pub dump_value : Option Text → Text
dump_value none = codes "null"
dump_value (some s) = dump_text s

abbrev pub Entry : Type 0
Entry = Text × Option Text

unfoldable pub dump_entry : Entry → Text
dump_entry (key, value) = dump_text key ++ codes ": " ++ dump_value value

-- The members after the first.
unfoldable pub dump_rest : List Entry → Text
dump_rest [] = codes "}"
dump_rest (e ∷ es) = codes ", " ++ dump_entry e ++ dump_rest es

unfoldable pub dumps : List Entry → Text
dumps [] = codes "{}"
dumps (e ∷ es) = codes "{" ++ dump_entry e ++ dump_rest es
