-- ===== src/Config/Origins.antt =====
-- `Settings.parse_and_validate_cors_origins` of app/config.py.
pub mod Exact
use ping_gaurd.Prelude.{
  ℕ, Bool, true, false, not, ◌||◌, Text, codes, List, [], ◌∷◌, ◌++◌, ◌==◌, Option, none, some,
  if◌then◌else◌,
}
use ping_gaurd.Models.{Result, ok, raise}
use ping_gaurd.Net.Resolve.{SplitResult, UrlLibrary, text_in}
use ping_gaurd.Urls.{rstrip_slash}

pub data OriginError : Type 0 where
  bad_input wildcard unparsable bad_scheme no_host has_path has_query : OriginError

-- The setting before it is parsed: None, a text, a collection of items, or something else.
pub data OriginInput : Type 0 where
  missing other : OriginInput
  one_text : Text → OriginInput
  several : List Text → OriginInput

abbrev push_char : ℕ → List Text → List Text
push_char c [] = (c ∷ []) ∷ []
push_char c (part ∷ parts) = (c ∷ part) ∷ parts

-- `v.split(",")`
unfoldable pub split_commas : Text → List Text
split_commas [] = [] ∷ []
split_commas (c ∷ cs) =
    let parts = split_commas cs in if c == 44 then [] ∷ parts else push_char c parts

abbrev pub is_empty : Text → Bool
is_empty [] = true
is_empty (c ∷ cs) = false

-- `[item.strip() for item in items if item.strip()]`
unfoldable pub strip_items : (strip : Text → Text) → List Text → List Text
strip_items strip [] = []
strip_items strip (item ∷ items) =
    let rest = strip_items strip items in if is_empty (strip item) then rest else strip item ∷ rest

unfoldable pub raw_origins : (strip : Text → Text) → OriginInput → Result OriginError (List Text)
raw_origins strip missing = ok []
raw_origins strip other = raise bad_input
raw_origins strip (one_text []) = ok []
raw_origins strip (one_text (c ∷ cs)) = ok (strip_items strip (split_commas (c ∷ cs)))
raw_origins strip (several items) = ok (strip_items strip items)

abbrev pub wildcards : List Text
wildcards = codes "*" ∷ codes "'*'" ∷ codes "\"*\"" ∷ []

module _ (lib : UrlLibrary) where
  abbrev pub normalized : SplitResult → Text
  normalized parsed = lib.lower parsed.scheme ++ codes "://" ++ parsed.netloc

  unfoldable pub origin_parts : SplitResult → Result OriginError Text
  origin_parts parsed =
      if not (text_in (lib.lower parsed.scheme) (codes "http" ∷ codes "https" ∷ []))
      then raise bad_scheme
      else if is_empty parsed.netloc
      then raise no_host
      else if not (is_empty parsed.path)
      then raise has_path
      else if not (is_empty parsed.query) || not (is_empty parsed.fragment)
      then raise has_query
      else ok (normalized parsed)

  -- The body of the loop up to `normalized`.
  unfoldable pub origin_of : Text → Result OriginError Text
  origin_of origin =
      if text_in origin wildcards
      then raise wildcard
      else elim (lib.urlsplit (rstrip_slash origin)) [
        | none ↦ raise unparsable
        | some parsed ↦ origin_parts parsed
      ]

  unfoldable pub collect_origins : List Text → List Text → Result OriginError (List Text)
  collect_origins validated [] = ok validated
  collect_origins validated (origin ∷ origins) = elim (origin_of origin) [
    | raise e ↦ raise e
    | ok o ↦
        collect_origins (if text_in o validated then validated else validated ++ o ∷ []) origins
  ]

  unfoldable pub parse_and_validate_cors_origins : OriginInput → Result OriginError (List Text)
  parse_and_validate_cors_origins v = elim (raw_origins lib.strip v) [
    | raise e ↦ raise e
    | ok raw ↦ collect_origins [] raw
  ]
