-- ===== src/Logging/Strings.antt =====
-- A dumped string read back.
use ping_gaurd.Prelude.{
  ℕ, suc, ◌+◌, ◌-◌, ◌*◌, ◌/◌, ◌%◌, ◌<◌, ◌≤◌, ◌≡◌, refl, ap, ◌∙◌, ◌⊎◌, inl, inr, true, false, ◌&&◌,
  Text, Option, none, some, List, [], ◌∷◌, ◌++◌, All, ltb, if◌then◌else◌, Bool-cases, Option-cases,
  ltb→lt, arith,
}
use mathlib.Core.List.{append_assoc}
use ping_gaurd.Logging.Json.{
  quote, backslash, hex_digit, escape_unit, short_escape, high_half, low_half, is_ascii,
  escape_char, escape_text, dump_text,
}
use ping_gaurd.Logging.Reader.{
  hex_value, short_value, Place, Turn, turn, between, digits, escaped, put_unit, read_units,
  is_high, is_low, combine, read_text, expect,
}

-- A code point that is no surrogate.
abbrev pub IsScalar : ℕ → Type 0
IsScalar c = (c < 0xd800) ⊎ ((0xe000 ≤ c) × (c < 0x110000))

hex_value-digit : (d : ℕ) → d < 16 → hex_value (hex_digit d) ≡ some d
unfolding hex_value hex_digit
hex_value-digit d h = ground arith

read_units-digit :
    (left value d : ℕ) (cs : Text)
    → d < 16
    → read_units (digits (suc left) value) (hex_digit d ∷ cs)
      ≡ read_units (digits left (value * 16 + d)) cs
unfolding read_units turn
read_units-digit left value d cs h = rw (read_units, turn, hex_value-digit d h) refl

read_units-last :
    (value d : ℕ) (cs : Text)
    → d < 16
    → read_units (digits 0 value) (hex_digit d ∷ cs)
      ≡ put_unit (value * 16 + d) (read_units between cs)
unfolding read_units turn
read_units-last value d cs h = rw (read_units, turn, hex_value-digit d h) refl

read_units-escape_unit :
    (u : ℕ) (rest : Text)
    → u < 0x10000
    → read_units between (escape_unit u ++ rest) ≡ put_unit u (read_units between rest)
unfolding escape_unit read_units turn
read_units-escape_unit u rest h =
    let a = u / 4096 % 16 in
    let b = u / 256 % 16 in
    let c = u / 16 % 16 in
    let d = u % 16 in
    let whole : (((0 * 16 + a) * 16 + b) * 16 + c) * 16 + d ≡ u = omega arith in
    read_units-digit 2 0 a (hex_digit b ∷ hex_digit c ∷ hex_digit d ∷ rest) (omega arith)
    ∙ read_units-digit 1 (0 * 16 + a) b (hex_digit c ∷ hex_digit d ∷ rest) (omega arith)
    ∙ read_units-digit 0 ((0 * 16 + a) * 16 + b) c (hex_digit d ∷ rest) (omega arith)
    ∙ read_units-last (((0 * 16 + a) * 16 + b) * 16 + c) d rest (omega arith)
    ∙ ap (λ v. put_unit v (read_units between rest)) whole

read_units-emit :
    (place : Place) (c u : ℕ) (cs : Text)
    → turn place c ≡ Turn.emit u
    → read_units place (c ∷ cs) ≡ put_unit u (read_units between cs)
unfolding read_units
read_units-emit place c u cs h = rw (read_units, h) refl

read_units-backslash : (cs : Text) → read_units between (backslash ∷ cs) ≡ read_units escaped cs
unfolding read_units turn
read_units-backslash cs = refl

turn-short_escape :
    (c letter : ℕ) → short_escape c ≡ some letter → turn escaped letter ≡ Turn.emit c
unfolding short_escape turn short_value
turn-short_escape c letter h = ground arith

turn-ascii : (c : ℕ) → short_escape c ≡ none → is_ascii c ≡ true → turn between c ≡ Turn.emit c
unfolding short_escape turn
turn-ascii c plain ascii = ground arith

-- The units of UTF-16 of a text.
abbrev put_units : List ℕ → Option (List ℕ × Text) → Option (List ℕ × Text)
put_units [] r = r
put_units (u ∷ us) r = put_unit u (put_units us r)

abbrev units_of : ℕ → List ℕ
units_of c = if ltb c 0x10000 then c ∷ [] else high_half c ∷ low_half c ∷ []

abbrev units : Text → List ℕ
units [] = []
units (c ∷ cs) = units_of c ++ units cs

short_escape_small : (c letter : ℕ) → short_escape c ≡ some letter → ltb c 0x10000 ≡ true
unfolding short_escape
short_escape_small c letter h = ground arith

high_half_small : (c : ℕ) → high_half c < 0x10000
unfolding high_half
high_half_small c = omega arith

low_half_small : (c : ℕ) → low_half c < 0x10000
unfolding low_half
low_half_small c = omega arith

read_units-escape_char :
    (c : ℕ) (rest : Text)
    → read_units between (escape_char c ++ rest) ≡ put_units (units_of c) (read_units between rest)
unfolding escape_char escape_unit
read_units-escape_char c rest = elim (Option-cases (short_escape c)) [
  | inr (letter, short) ↦
      rw (escape_char, short, short_escape_small c letter short)
        (read_units-backslash (letter ∷ rest)
          ∙ read_units-emit escaped letter c rest (turn-short_escape c letter short))
  | inl plain ↦ elim (Bool-cases (is_ascii c)) [
    | inl ascii ↦
        let small : ltb c 0x10000 ≡ true = ground arith in
        rw (escape_char, plain, ascii, small)
          (read_units-emit between c c rest (turn-ascii c plain ascii))
    | inr other ↦ elim (Bool-cases (ltb c 0x10000)) [
      | inl small ↦
          rw (escape_char, plain, other, small)
            (read_units-escape_unit c rest (ltb→lt c 0x10000 small))
      | inr large ↦
          let low = read_units-escape_unit (low_half c) rest (low_half_small c) in
          rw (escape_char, plain, other, large)
            (read_units-escape_unit (high_half c) (escape_unit (low_half c) ++ rest)
                (high_half_small c)
              ∙ ap (put_unit (high_half c)) low)
    ]
  ]
]

put_units-append : (us vs : List ℕ) (r : Text) → put_units us (some (vs, r)) ≡ some (us ++ vs, r)
put_units-append [] vs r = refl
put_units-append (u ∷ us) vs r = rw (put_units-append us vs r) refl

read_units-quote : (rest : Text) → read_units between (quote ∷ rest) ≡ some ([], rest)
unfolding read_units turn
read_units-quote rest = refl

read_units-escape_text :
    (s rest : Text) → read_units between (escape_text s ++ quote ∷ rest) ≡ some (units s, rest)
unfolding escape_text
read_units-escape_text [] rest = read_units-quote rest
read_units-escape_text (c ∷ cs) rest =
    ap (read_units between) (append_assoc (escape_char c) (escape_text cs) (quote ∷ rest))
    ∙ read_units-escape_char c (escape_text cs ++ quote ∷ rest)
    ∙ ap (put_units (units_of c)) (read_units-escape_text cs rest)
    ∙ put_units-append (units_of c) (units cs) rest

combine-pair :
    (c : ℕ) (us : List ℕ)
    → 0x10000 ≤ c
    → c < 0x110000
    → combine (high_half c ∷ low_half c ∷ us) ≡ c ∷ combine us
unfolding high_half low_half combine
combine-pair c us low high =
    let both : (is_high (high_half c) && is_low (low_half c)) ≡ true = ground arith in
    let whole : 0x10000 + (high_half c - 0xd800) * 1024 + (low_half c - 0xdc00) ≡ c = omega arith in
    rw (combine, both, whole) refl

combine-single :
    (c : ℕ) (us : List ℕ) → IsScalar c → c < 0x10000 → combine (c ∷ us) ≡ c ∷ combine us
unfolding combine
combine-single c [] h small = refl
combine-single c (u ∷ us) h small =
    let single : (is_high c && is_low u) ≡ false = ground arith in rw (combine, single) refl

combine-units : (s : Text) → All IsScalar s → combine (units s) ≡ s
unfolding combine
combine-units [] h = refl
combine-units (c ∷ cs) h = elim (Bool-cases (ltb c 0x10000)) [
  | inl small ↦ rw small (
      combine-single c (units cs) h.0 (ltb→lt c 0x10000 small)
      ∙ ap (λ t. c ∷ t) (combine-units cs h.1))
  | inr large ↦ rw large (
      combine-pair c (units cs) (ground arith) (ground arith)
      ∙ ap (λ t. c ∷ t) (combine-units cs h.1))
]

pub read_text-dump_text :
    (s rest : Text) → All IsScalar s → read_text (dump_text s ++ rest) ≡ some (s, rest)
unfolding dump_text read_text expect
read_text-dump_text s rest h =
    let body =
      ap (read_units between) (append_assoc (escape_text s) (quote ∷ []) rest)
      ∙ read_units-escape_text s rest in
    rw (body, combine-units s h) refl
