-- ===== src/Logging/Entries.antt =====
-- A dumped dictionary read back.
use mathlib.Core.List.{append_assoc}
use ping_gaurd.Prelude.{
  ℕ, zero, suc, ◌<◌, ◌≡◌, refl, ap, ◌∙◌, false, ◌==◌, Text, codes, Option, none, some, List, [],
  ◌∷◌, ◌++◌, All, length, length-append, ==_refl, arith,
}
use ping_gaurd.Logging.Json.{Entry, quote, dump_text, dump_value, dump_entry, dump_rest, dumps}
use ping_gaurd.Logging.Reader.{expect, read_text, read_value, read_entry, read_rest, loads}
use ping_gaurd.Logging.Strings.{IsScalar, read_text-dump_text}

abbrev pub AreScalar : Option Text → Type 0
AreScalar none = Unit
AreScalar (some s) = All IsScalar s

abbrev pub IsScalarEntry : Entry → Type 0
IsScalarEntry (key, value) = All IsScalar key × AreScalar value

expect-append : (p s : Text) → expect p (p ++ s) ≡ some s
unfolding expect
expect-append [] s = refl
expect-append (c ∷ cs) s = rw (expect, ==_refl c) (expect-append cs s)

expect-dump_text :
    (c : ℕ) (cs s rest : Text) → (c == quote) ≡ false → expect (c ∷ cs) (dump_text s ++ rest) ≡ none
unfolding dump_text expect
expect-dump_text c cs s rest h = rw (expect, h) refl

read_value-null :
    (s rest : Text) → expect (codes "null") s ≡ some rest → read_value s ≡ some (none, rest)
unfolding read_value
read_value-null s rest h = rw (read_value, h) refl

read_value-text :
    (s t rest : Text)
    → expect (codes "null") s ≡ none
    → read_text s ≡ some (t, rest)
    → read_value s ≡ some (some t, rest)
unfolding read_value
read_value-text s t rest no_null h = rw (read_value, no_null, h) refl

read_value-dump_value :
    (value : Option Text) (rest : Text)
    → AreScalar value
    → read_value (dump_value value ++ rest) ≡ some (value, rest)
unfolding dump_value
read_value-dump_value none rest h =
    read_value-null (codes "null" ++ rest) rest (expect-append (codes "null") rest)
read_value-dump_value (some s) rest h =
    read_value-text (dump_text s ++ rest) s rest (expect-dump_text 110 (codes "ull") s rest refl)
      (read_text-dump_text s rest h)

read_entry_lem :
    (s key after_key after_colon rest : Text) (value : Option Text)
    → read_text s ≡ some (key, after_key)
    → expect (codes ": ") after_key ≡ some after_colon
    → read_value after_colon ≡ some (value, rest)
    → read_entry s ≡ some ((key, value), rest)
unfolding read_entry
read_entry_lem s key after_key after_colon rest value k c v = rw (read_entry, k, c, v) refl

-- An entry in front of a text is the key's string in front of the others.
dump_entry-append :
    (key : Text) (value : Option Text) (rest : Text)
    → dump_entry (key, value) ++ rest ≡ dump_text key ++ (codes ": " ++ (dump_value value ++ rest))
unfolding dump_entry
dump_entry-append key value rest =
    append_assoc (dump_text key ++ codes ": ") (dump_value value) rest
    ∙ append_assoc (dump_text key) (codes ": ") (dump_value value ++ rest)

read_entry-dump_entry :
    (e : Entry) (rest : Text) → IsScalarEntry e → read_entry (dump_entry e ++ rest) ≡ some (e, rest)
read_entry-dump_entry (key, value) rest h =
    let after_colon = dump_value value ++ rest in
    let after_key = codes ": " ++ after_colon in
    ap read_entry (dump_entry-append key value rest)
    ∙ read_entry_lem (dump_text key ++ after_key) key after_key after_colon rest value
        (read_text-dump_text key after_key h.0) (expect-append (codes ": ") after_colon)
        (read_value-dump_value value rest h.1)

read_rest-end :
    (fuel : ℕ) (s : Text)
    → expect (codes ", ") s ≡ none
    → expect (codes "}") s ≡ some []
    → read_rest (suc fuel) s ≡ some []
unfolding read_rest
read_rest-end fuel s no_more end = rw (read_rest, no_more, end) refl

read_rest-more :
    (fuel : ℕ) (s more rest : Text) (e : Entry) (es : List Entry)
    → expect (codes ", ") s ≡ some more
    → read_entry more ≡ some (e, rest)
    → read_rest fuel rest ≡ some es
    → read_rest (suc fuel) s ≡ some (e ∷ es)
unfolding read_rest
read_rest-more fuel s more rest e es comma first others = rw (read_rest, comma, first, others) refl

dump_rest-more :
    (e : Entry) (es : List Entry)
    → dump_rest (e ∷ es) ≡ codes ", " ++ (dump_entry e ++ dump_rest es)
unfolding dump_rest
dump_rest-more e es = append_assoc (codes ", ") (dump_entry e) (dump_rest es)

read_rest-dump_rest :
    (es : List Entry) (fuel : ℕ)
    → All IsScalarEntry es
    → length es < fuel
    → read_rest fuel (dump_rest es) ≡ some es
unfolding dump_rest expect
read_rest-dump_rest [] zero h enough = elim enough [ ]
read_rest-dump_rest (e ∷ es) zero h enough = elim enough [ ]
read_rest-dump_rest [] (suc fuel) h enough = read_rest-end fuel (codes "}") refl refl
read_rest-dump_rest (e ∷ es) (suc fuel) h enough =
    let more = dump_entry e ++ dump_rest es in
    ap (read_rest (suc fuel)) (dump_rest-more e es)
    ∙ read_rest-more fuel (codes ", " ++ more) more (dump_rest es) e es
        (expect-append (codes ", ") more) (read_entry-dump_entry e (dump_rest es) h.0)
        (read_rest-dump_rest es fuel h.1 (omega arith))

dump_rest_long : (es : List Entry) → length es < length (dump_rest es)
unfolding dump_rest
dump_rest_long [] = omega arith
dump_rest_long (e ∷ es) =
    omega (arith, dump_rest_long es, length-append (dump_entry e) (dump_rest es))

-- An entry does not start with a closing brace.
expect-dump_entry : (e : Entry) (rest : Text) → expect (codes "}") (dump_entry e ++ rest) ≡ none
expect-dump_entry (key, value) rest =
    ap (expect (codes "}")) (dump_entry-append key value rest)
    ∙ expect-dump_text 125 [] key (codes ": " ++ (dump_value value ++ rest)) refl

loads_lem :
    (s body rest : Text) (e : Entry) (es : List Entry)
    → expect (codes "{") s ≡ some body
    → expect (codes "}") body ≡ none
    → read_entry body ≡ some (e, rest)
    → read_rest (length rest) rest ≡ some es
    → loads s ≡ some (e ∷ es)
unfolding loads expect
loads_lem s body rest e es brace full first others = rw (loads, brace, full, first, others) refl

pub loads-dumps : (es : List Entry) → All IsScalarEntry es → loads (dumps es) ≡ some es
unfolding dumps loads expect
loads-dumps [] h = refl
loads-dumps (e ∷ es) h =
    let rest = dump_rest es in
    let body = dump_entry e ++ rest in
    ap loads (append_assoc (codes "{") (dump_entry e) rest)
    ∙ loads_lem (codes "{" ++ body) body rest e es (expect-append (codes "{") body)
        (expect-dump_entry e rest) (read_entry-dump_entry e rest h.0)
        (read_rest-dump_rest es (length rest) h.1 (dump_rest_long es))
