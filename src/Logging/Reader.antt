-- ===== src/Logging/Reader.antt =====
-- A reader of such a JSON text, by the grammar of RFC 8259: a string is a sequence of characters and
-- escapes, each a unit of UTF-16, of which two surrogates make one character.
use ping_gaurd.Prelude.{
  ℕ, zero, suc, ◌+◌, ◌-◌, ◌*◌, Bool, true, false, ◌&&◌, Text, codes, Option, none, some, List, [],
  ◌∷◌, ltb, leb, ◌==◌, length, if◌then◌else◌,
}
use ping_gaurd.Logging.Json.{quote, backslash, letter_u, Entry}

unfoldable pub hex_value : ℕ → Option ℕ
hex_value c =
    if leb 48 c && leb c 57
    then some (c - 48)
    else if leb 97 c && leb c 102
    then some (c - 87)
    else if leb 65 c && leb c 70
    then some (c - 55)
    else none

-- The character of a short escape.
unfoldable pub short_value : ℕ → Option ℕ
short_value c =
    if c == quote
    then some quote
    else if c == backslash
    then some backslash
    else if c == 47
    then some 47
    else if c == 110
    then some 10
    else if c == 114
    then some 13
    else if c == 116
    then some 9
    else if c == 102
    then some 12
    else if c == 98
    then some 8
    else none

-- Between characters, after a backslash, or with some hexadecimal digits still to come.
pub data Place : Type 0 where
  between escaped : Place
  digits : (left value : ℕ) → Place

pub data Turn : Type 0 where
  close invalid : Turn
  emit : ℕ → Turn
  become : Place → Turn

unfoldable pub turn : Place → ℕ → Turn
turn between c =
    if c == quote
    then close
    else if c == backslash
    then become escaped
    else if ltb c 32
    then invalid
    else emit c
turn escaped c =
    if c == letter_u
    then become (digits 3 0)
    else elim (short_value c) [ none ↦ invalid | some u ↦ emit u ]
turn (digits zero value) c = elim (hex_value c) [ none ↦ invalid | some d ↦ emit (value * 16 + d) ]
turn (digits (suc left) value) c = elim (hex_value c) [
  | none ↦ invalid
  | some d ↦ become (digits left (value * 16 + d))
]

abbrev pub put_unit : ℕ → Option (List ℕ × Text) → Option (List ℕ × Text)
put_unit u none = none
put_unit u (some (units, rest)) = some (u ∷ units, rest)

-- The units up to the closing quote, and the text after it.
unfoldable pub read_units : Place → Text → Option (List ℕ × Text)
read_units place [] = none
read_units place (c ∷ cs) = elim (turn place c) [
  | close ↦ some ([], cs)
  | invalid ↦ none
  | emit u ↦ put_unit u (read_units between cs)
  | become next ↦ read_units next cs
]

abbrev pub is_high : ℕ → Bool
is_high u = leb 0xd800 u && ltb u 0xdc00

abbrev pub is_low : ℕ → Bool
is_low u = leb 0xdc00 u && ltb u 0xe000

unfoldable pub combine : List ℕ → Text
combine [] = []
combine (u ∷ []) = u ∷ []
combine (u ∷ v ∷ us) = elim (is_high u && is_low v) [
  | true ↦ (0x10000 + (u - 0xd800) * 1024 + (v - 0xdc00)) ∷ combine us
  | false ↦ u ∷ combine (v ∷ us)
]

-- Strips a prefix.
unfoldable pub expect : Text → Text → Option Text
expect [] s = some s
expect (c ∷ cs) [] = none
expect (c ∷ cs) (d ∷ ds) = if c == d then expect cs ds else none

infixl 5 ◌>>=◌
abbrev ◌>>=◌ : {A B : Type 0} → Option A → (A → Option B) → Option B
none >>= f = none
some a >>= f = f a

unfoldable pub read_text : Text → Option (Text × Text)
read_text s = do
  body ← expect (quote ∷ []) s
  (units, rest) ← read_units between body
  some (combine units, rest)

unfoldable pub read_value : Text → Option (Option Text × Text)
read_value s = elim (expect (codes "null") s) [
  | some rest ↦ some (none, rest)
  | none ↦ do (value, rest) ← read_text s; some (some value, rest)
]

unfoldable pub read_entry : Text → Option (Entry × Text)
read_entry s = do
  (key, after_key) ← read_text s
  after_colon ← expect (codes ": ") after_key
  (value, rest) ← read_value after_colon
  some ((key, value), rest)

-- The members after the first, with at most `fuel` of them.
unfoldable pub read_rest : (fuel : ℕ) → Text → Option (List Entry)
read_rest zero s = none
read_rest (suc fuel) s = elim (expect (codes ", ") s) [
  | none ↦ do rest ← expect (codes "}") s; elim rest [ [] ↦ some [] | c ∷ cs ↦ none ]
  | some more ↦ do (e, rest) ← read_entry more; es ← read_rest fuel rest; some (e ∷ es)
]

unfoldable pub loads : Text → Option (List Entry)
loads s = do
  body ← expect (codes "{") s
  elim (expect (codes "}") body) [
    | some [] ↦ some []
    | some (c ∷ cs) ↦ none
    | none ↦ do (e, rest) ← read_entry body; es ← read_rest (length rest) rest; some (e ∷ es)
  ]
