-- ===== src/Config.antt =====
-- The validators of app/config.py. Settings in seconds that are floats count microseconds; the integers
-- of Python are signed. `make_url` is SQLAlchemy's; `strip`, `lower` and `upper` are methods of `str`.
pub mod Drivers
pub mod Origins
pub mod Budget
pub mod Secrets
pub mod Examples
use ping_gaurd.Prelude.{
  ℕ, suc, ◌+◌, ◌*◌, Bool, true, false, not, ◌&&◌, ◌||◌, Text, codes, List, [], ◌∷◌, Option, none,
  some, leb, ltb, length, if◌then◌else◌,
}
use ping_gaurd.Models.{Result, ok, raise}
use ping_gaurd.Net.Resolve.{text_in, truthy, UrlLibrary}
use ping_gaurd.Config.Origins.{OriginError, OriginInput, is_empty, parse_and_validate_cors_origins}
use ping_gaurd.Net.Probe.{starts_with, ClientSettings}

-- The integer n, or -1 - n.
pub data ℤ : Type 0 where
  pos negsuc : ℕ → ℤ

-- `v > 0`
abbrev pub is_positive : ℤ → Bool
is_positive (pos n) = ltb 0 n
is_positive (negsuc n) = false

-- `0 <= v <= bound`
abbrev pub is_up_to : ℕ → ℤ → Bool
is_up_to bound (pos n) = leb n bound
is_up_to bound (negsuc n) = false

-- `v`, where it is not negative.
abbrev pub magnitude : ℤ → ℕ
magnitude (pos n) = n
magnitude (negsuc n) = 0

-- `a < b + d`
abbrev pub below_sum : ℤ → ℤ → ℕ → Bool
below_sum (pos a) (pos b) d = ltb a (b + d)
below_sum (pos a) (negsuc b) d = ltb (a + suc b) d
below_sum (negsuc a) (pos b) d = true
below_sum (negsuc a) (negsuc b) d = ltb (suc b) (suc a + d)

pub data ConfigError : Type 0 where
  short_key weak_key not_positive bad_redirects soft_limit_low hard_limit_low : ConfigError
  bad_log_level no_database_url bad_database_url weak_db_password : ConfigError
  bad_origins : OriginError → ConfigError

pub data Environment : Type 0 where
  dev test prod : Environment

pub record Settings : Type 0 where
  pub environment : Environment
  pub api_key : Text
  pub cors_allowed_origins : OriginInput
  pub database_url : Text
  pub log_level : Text
  pub sweep_interval : ℤ
  pub http_connect_timeout : ℤ
  pub http_read_timeout : ℤ
  pub http_write_timeout : ℤ
  pub http_pool_timeout : ℤ
  pub probe_total_timeout : ℤ
  pub http_max_response_bytes : ℤ
  pub celery_soft_time_limit : ℤ
  pub celery_hard_time_limit : ℤ
  pub rate_limit_writes_per_minute : ℤ
  pub max_monitors : ℤ
  pub ping_results_retention_days : ℤ
  pub retention_batch_size : ℤ
  pub sweep_batch_size : ℤ
  pub sweep_max_batches : ℤ
  pub http_max_redirects : ℤ
  pub http_user_agent : Text
  pub http_keep_alive_user_agent : Text

infixl 5 ◌>>◌
abbrev ◌>>◌ :
    Result ConfigError (Unit {0}) → Result ConfigError (Unit {0}) → Result ConfigError (Unit {0})
ok _ >> r = r
raise e >> r = raise e

abbrev reject : Bool → ConfigError → Result ConfigError (Unit {0})
reject refused e = if refused then raise e else ok tt

-- `WEAK_PASSWORDS`
abbrev pub weak_passwords : List Text
weak_passwords =
    codes "postgres"
    ∷ codes "password"
    ∷ codes "admin"
    ∷ codes "root"
    ∷ codes "123456"
    ∷ codes "change-me"
    ∷ codes "change-me-generate-a-random-one"
    ∷ []

-- `val in WEAK_PASSWORDS or val.startswith("change-me")`
unfoldable pub is_placeholder : Text → Bool
is_placeholder val = text_in val weak_passwords || starts_with (codes "change-me") val

unfoldable pub validate_api_key : (lower : Text → Text) → Text → Result ConfigError (Unit {0})
validate_api_key lower key =
    reject (ltb (length key) 24) short_key >> reject (is_placeholder (lower key)) weak_key

-- `validate_positive_float` and `validate_positive_int` on one field.
unfoldable pub validate_positive : ℤ → Result ConfigError (Unit {0})
validate_positive v = reject (not (is_positive v)) not_positive

unfoldable pub validate_max_redirects : ℤ → Result ConfigError (Unit {0})
validate_max_redirects v = reject (not (is_up_to 20 v)) bad_redirects

-- The limits are whole seconds, the deadline is in microseconds.
abbrev pub in_microseconds : ℤ → ℤ
in_microseconds (pos n) = pos (n * 1000000)
in_microseconds (negsuc n) = negsuc (n * 1000000 + 999999)

unfoldable pub validate_timeout_budget : Settings → Result ConfigError (Unit {0})
validate_timeout_budget s =
    reject (below_sum (in_microseconds s.celery_soft_time_limit) s.probe_total_timeout 2000000)
      soft_limit_low
    >> reject (below_sum s.celery_hard_time_limit s.celery_soft_time_limit 3) hard_limit_low

-- What the validators read of SQLAlchemy's URL; `none` is an exception of `make_url`.
pub record DatabaseUrl : Type 0 where
  pub database : Option Text
  pub password : Option Text

abbrev pub discard : {E A : Type 0} → (E → ConfigError) → Result E A → Result ConfigError (Unit {0})
discard f (ok a) = ok tt
discard f (raise e) = raise (f e)

abbrev pub log_levels : List Text
log_levels = codes "DEBUG" ∷ codes "INFO" ∷ codes "WARNING" ∷ codes "ERROR" ∷ codes "CRITICAL" ∷ []

-- `not pwd or pwd.lower() in WEAK_PASSWORDS or pwd.lower().startswith("change-me")`
abbrev pub is_weak : (lower : Text → Text) → Text → Bool
is_weak lower pwd = is_empty pwd || is_placeholder (lower pwd)

abbrev pub is_weak_or_none : (lower : Text → Text) → Option Text → Bool
is_weak_or_none lower none = true
is_weak_or_none lower (some pwd) = is_weak lower pwd

module _ (lib : UrlLibrary) (upper : Text → Text) (make_url : Text → Option DatabaseUrl) where
  unfoldable pub validate_log_level : Text → Result ConfigError (Unit {0})
  validate_log_level v = reject (not (text_in (upper (lib.strip v)) log_levels)) bad_log_level

  unfoldable pub validate_database_url : Text → Result ConfigError (Unit {0})
  validate_database_url v =
      reject (is_empty v || is_empty (lib.strip v)) no_database_url >> elim (make_url v) [
        | none ↦ raise bad_database_url
        | some url ↦ reject (not (truthy url.database)) bad_database_url
      ]

  -- The validator reads the URL that the field's validator has stripped.
  unfoldable pub validate_db_password : Settings → Result ConfigError (Unit {0})
  validate_db_password s = elim s.environment [
    | dev ↦ ok tt
    | test ↦ ok tt
    | prod ↦ elim (make_url (lib.strip s.database_url)) [
      | none ↦ raise bad_database_url
      | some url ↦ reject (is_weak_or_none lib.lower url.password) weak_db_password
    ]
  ]

  -- pydantic reports all errors of the fields, here the first stands for them.
  unfoldable pub validate_settings : Settings → Result ConfigError (Unit {0})
  validate_settings s =
      validate_api_key lib.lower s.api_key
      >> discard bad_origins (parse_and_validate_cors_origins lib s.cors_allowed_origins)
      >> validate_database_url s.database_url
      >> validate_positive s.sweep_interval
      >> validate_positive s.http_connect_timeout
      >> validate_positive s.http_read_timeout
      >> validate_positive s.http_write_timeout
      >> validate_positive s.http_pool_timeout
      >> validate_positive s.probe_total_timeout
      >> validate_positive s.http_max_response_bytes
      >> validate_positive s.celery_soft_time_limit
      >> validate_positive s.celery_hard_time_limit
      >> validate_positive s.rate_limit_writes_per_minute
      >> validate_positive s.max_monitors
      >> validate_positive s.ping_results_retention_days
      >> validate_positive s.retention_batch_size
      >> validate_positive s.sweep_batch_size
      >> validate_positive s.sweep_max_batches
      >> validate_max_redirects s.http_max_redirects
      >> validate_log_level s.log_level
      >> validate_timeout_budget s
      >> validate_db_password s

-- What the probe's bridges read of the settings.
unfoldable pub probe_settings : Settings → ClientSettings
probe_settings s = record {
  http_user_agent = s.http_user_agent;
  http_keep_alive_user_agent = s.http_keep_alive_user_agent;
  http_max_response_bytes = magnitude s.http_max_response_bytes;
  http_max_redirects = magnitude s.http_max_redirects;
}
