-- ===== src/Config/Secrets.antt =====
-- Settings that pass validation in production.
use mathlib.Core.Bool.{true≢false}
use ping_gaurd.Prelude.{
  ◌≤◌, ◌≡◌, inl, inr, true, false, Text, Option, some, List, [], ◌∷◌, length, Option-cases, arith,
}
use ping_gaurd.Models.{ok, Result-cases}
use ping_gaurd.Net.Resolve.{UrlLibrary, text_in}
use ping_gaurd.Config.{
  Settings, prod, discard, bad_origins, DatabaseUrl, is_weak, log_levels, validate_api_key,
  validate_log_level, validate_db_password, validate_settings,
}
use ping_gaurd.Config.Origins.{OriginInput, parse_and_validate_cors_origins}

strong_key :
    (lower : Text → Text) (key : Text)
    → validate_api_key lower key ≡ ok tt
    → (24 ≤ length key) × (is_weak lower key ≡ false)
unfolding validate_api_key
strong_key lower [] h = ground arith
strong_key lower (c ∷ cs) h = ground arith

module _ (lib : UrlLibrary) (upper : Text → Text) (make_url : Text → Option DatabaseUrl) where
  settings_parts :
      (s : Settings)
      → validate_settings lib upper make_url s ≡ ok tt
      → (validate_api_key lib.lower s.api_key ≡ ok tt)
        × ((discard bad_origins (parse_and_validate_cors_origins lib s.cors_allowed_origins)
              ≡ ok tt)
            × ((validate_log_level lib upper make_url s.log_level ≡ ok tt)
                × (validate_db_password lib upper make_url s ≡ ok tt)))
  unfolding validate_settings
  settings_parts s h = ground arith

  valid_level :
      (level : Text)
      → validate_log_level lib upper make_url level ≡ ok tt
      → text_in (upper (lib.strip level)) log_levels ≡ true
  unfolding validate_log_level
  valid_level level h = ground arith

  parsed_origins :
      (v : OriginInput)
      → discard bad_origins (parse_and_validate_cors_origins lib v) ≡ ok tt
      → (origins : List Text) × (parse_and_validate_cors_origins lib v ≡ ok origins)
  parsed_origins v h = elim (Result-cases (parse_and_validate_cors_origins lib v)) [
    | inl found ↦ found
    | inr (e, r) ↦ let never : true ≡ false = ground arith in elim (true≢false never) [ ]
  ]

  strong_password :
      (s : Settings)
      → s.environment ≡ prod
      → validate_db_password lib upper make_url s ≡ ok tt
      → (url : DatabaseUrl) × ((make_url (lib.strip s.database_url) ≡ some url)
          × ((pwd : Text) × ((url.password ≡ some pwd) × (is_weak lib.lower pwd ≡ false))))
  unfolding validate_db_password
  strong_password s in_prod h = elim (Option-cases (make_url (lib.strip s.database_url))) [
    | inl e ↦ let never : true ≡ false = ground arith in elim (true≢false never) [ ]
    | inr (url, e) ↦ elim (Option-cases url.password) [
      | inl p ↦ let never : true ≡ false = ground arith in elim (true≢false never) [ ]
      | inr (pwd, p) ↦
          let strong : is_weak lib.lower pwd ≡ false = ground arith in
          (url, (e, (pwd, (p, strong))))
    ]
  ]

-- Settings that pass validation in production have an API key of at least 24 characters and a database
-- password, neither of them empty, in the list of weak values or starting with "change-me" once in
-- lower case; the log level, stripped and in upper case, is one of the five, and the origins for CORS
-- are parsed.
pub production_secrets :
    (lib : UrlLibrary) (upper : Text → Text) (make_url : Text → Option DatabaseUrl) (s : Settings)
    → s.environment ≡ prod
    → validate_settings lib upper make_url s ≡ ok tt
    → ((24 ≤ length s.api_key) × (is_weak lib.lower s.api_key ≡ false))
      × (((url : DatabaseUrl) × ((make_url (lib.strip s.database_url) ≡ some url)
              × ((pwd : Text) × ((url.password ≡ some pwd) × (is_weak lib.lower pwd ≡ false)))))
          × ((text_in (upper (lib.strip s.log_level)) log_levels ≡ true)
              × ((origins : List Text) × (parse_and_validate_cors_origins lib s.cors_allowed_origins
                    ≡ ok origins))))
production_secrets lib upper make_url s in_prod h =
    let (key, (cors, (level, password))) = settings_parts lib upper make_url s h in
    (
      strong_key lib.lower s.api_key key,
      (
        strong_password lib upper make_url s in_prod password,
        (
          valid_level lib upper make_url s.log_level level,
          parsed_origins lib upper make_url s.cors_allowed_origins cors,
        ),
      ),
    )
