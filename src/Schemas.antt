-- ===== src/Schemas.antt =====
-- The validators and request contracts of app/schemas.py. A ValueError is an error of the enumeration
-- below. Pydantic's URL type is a record of what the validators read of it.
pub mod Rules
use ping_gaurd.Prelude.{
  ℕ, suc, Bool, true, false, not, ◌&&◌, ◌||◌, Text, codes, Option, none, some, List, [], ◌∷◌, leb,
  length, if◌then◌else◌,
}
use ping_gaurd.Enums.{MonitorMode, monitor, keep_alive, monitor_and_keep_alive}
use ping_gaurd.Models.{Result, ok, raise}
use ping_gaurd.Ssrf.{is_ip_blocked}
use ping_gaurd.Net.Resolve.{UrlLibrary, truthy, text_in}
use ping_gaurd.Net.Probe.{starts_with, text_contains}

pub data SchemaError : Type 0 where
  not_relative absolute_url : SchemaError
  must_be_disabled must_be_enabled : SchemaError
  interval_required interval_forbidden path_forbidden : SchemaError
  name_length interval_range path_length : SchemaError
  url_scheme url_credentials url_loopback url_restricted : SchemaError

infixl 5 ◌>>◌
abbrev pub ◌>>◌ :
    {A : Type 0} → Result SchemaError (Unit {0}) → Result SchemaError A → Result SchemaError A
ok _ >> r = r
raise e >> r = raise e

-- `if test: raise ValueError(...)`
abbrev pub refuse : Bool → SchemaError → Result SchemaError (Unit {0})
refuse test e = if test then raise e else ok tt

unfoldable pub validate_relative_path : Option Text → Result SchemaError (Unit {0})
validate_relative_path none = ok tt
validate_relative_path (some v) =
    refuse (not (starts_with (codes "/") v)) not_relative
    >> refuse (starts_with (codes "//") v || text_contains (codes "://") v) absolute_url

-- `x is not None`
abbrev pub given {ℓ} : {A : Type ℓ} → Option A → Bool
given none = false
given (some a) = true

-- `flag is True`, `flag is False`
abbrev pub is_true : Option Bool → Bool
is_true none = false
is_true (some b) = b

abbrev pub is_false : Option Bool → Bool
is_false none = false
is_false (some b) = not b

abbrev pub mode_is_monitor : Option MonitorMode → Bool
mode_is_monitor (some monitor) = true
mode_is_monitor _ = false

abbrev pub mode_keeps_alive : Option MonitorMode → Bool
mode_keeps_alive (some keep_alive) = true
mode_keeps_alive (some monitor_and_keep_alive) = true
mode_keeps_alive _ = false

unfoldable pub validate_keep_alive_rules :
    (mode : Option MonitorMode) (keep_alive_enabled : Option Bool)
    (keep_alive_interval_seconds : Option ℕ) (keep_alive_path : Option Text)
    (check_path_on_disable : Bool)
    → Result SchemaError (Unit {0})
validate_keep_alive_rules mode enabled interval path check_path_on_disable =
    (if mode_is_monitor mode && is_true enabled
      then raise must_be_disabled
      else if mode_keeps_alive mode && is_false enabled
      then raise must_be_enabled
      else ok tt)
    >> (if is_true enabled
        then refuse (not (given interval)) interval_required
        else if is_false enabled
        then refuse (given interval) interval_forbidden
          >> refuse (check_path_on_disable && given path) path_forbidden
        else ok tt)

-- What the validators read of a `HttpUrl`, and its text.
pub record HttpUrl : Type 0 where
  pub scheme : Text
  pub username : Option Text
  pub password : Option Text
  pub host : Option Text
  pub text : Text

pub record MonitorCreate : Type 0 where
  pub name : Text
  pub url : HttpUrl
  pub check_interval_seconds : ℕ
  pub mode : MonitorMode
  pub keep_alive_enabled : Bool
  pub keep_alive_interval_seconds : Option ℕ
  pub keep_alive_path : Option Text

-- `Field(ge=15, le=86400)`, `Field(min_length=1, max_length=120)`, `Field(max_length=255)`; a null
-- passes where the field is optional.
abbrev pub interval_field : Option ℕ → Result SchemaError (Unit {0})
interval_field none = ok tt
interval_field (some n) = refuse (not (leb 15 n && leb n 86400)) interval_range

abbrev pub name_field : Option Text → Result SchemaError (Unit {0})
name_field none = ok tt
name_field (some s) = refuse (not (leb 1 (length s) && leb (length s) 120)) name_length

abbrev pub path_field : Option Text → Result SchemaError (Unit {0})
path_field none = ok tt
path_field (some s) = refuse (not (leb (length s) 255)) path_length

module _ (lib : UrlLibrary) where
  open lib use {ip_address, lower, strip}

  -- `(v.host or "").strip().lower()`
  abbrev host_text : Option Text → Text
  host_text none = lower (strip [])
  host_text (some h) = lower (strip h)

  unfoldable pub validate_url_scheme_and_safety : HttpUrl → Result SchemaError (Unit {0})
  validate_url_scheme_and_safety v =
      refuse (not (text_in (lower v.scheme) (codes "http" ∷ codes "https" ∷ []))) url_scheme
      >> refuse (truthy v.username || truthy v.password) url_credentials
      >> refuse
          (text_in (host_text v.host) (codes "localhost" ∷ codes "localhost.localdomain" ∷ []))
          url_loopback
      >> elim (ip_address (host_text v.host)) [
        | none ↦ ok tt
        | some ip ↦ refuse (is_ip_blocked ip) url_restricted
      ]

  -- The fields and validators of `MonitorCreate`; pydantic reports all errors, here the first stands
  -- for them.
  unfoldable pub validate_create : MonitorCreate → Result SchemaError (Unit {0})
  validate_create p =
      name_field (some p.name)
      >> validate_url_scheme_and_safety p.url
      >> interval_field (some p.check_interval_seconds)
      >> interval_field p.keep_alive_interval_seconds
      >> path_field p.keep_alive_path
      >> validate_relative_path p.keep_alive_path
      >> validate_keep_alive_rules (some p.mode) (some p.keep_alive_enabled)
          p.keep_alive_interval_seconds p.keep_alive_path true

-- A field that the request leaves out is `none`, one that it sets to null is `some none`.
pub record MonitorUpdate : Type 0 where
  pub name : Option (Option Text)
  pub check_interval_seconds : Option (Option ℕ)
  pub mode : Option (Option MonitorMode)
  pub keep_alive_enabled : Option (Option Bool)
  pub keep_alive_interval_seconds : Option (Option ℕ)
  pub keep_alive_path : Option (Option Text)

-- A field left out has the default None.
abbrev pub or_none : {A : Type 0} → Option (Option A) → Option A
or_none none = none
or_none (some o) = o

unfoldable pub validate_update : MonitorUpdate → Result SchemaError (Unit {0})
validate_update p =
    name_field (or_none p.name)
    >> interval_field (or_none p.check_interval_seconds)
    >> interval_field (or_none p.keep_alive_interval_seconds)
    >> path_field (or_none p.keep_alive_path)
    >> validate_relative_path (or_none p.keep_alive_path)
    >> validate_keep_alive_rules (or_none p.mode) (or_none p.keep_alive_enabled)
        (or_none p.keep_alive_interval_seconds) (or_none p.keep_alive_path) false
