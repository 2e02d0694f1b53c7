-- ===== src/System/Catalog.antt =====
-- The abstract specification: a catalogue of configurations under keys. It knows neither rows nor
-- schedules nor results, so a transaction of the worker does nothing to it.
use ping_gaurd.Prelude.{
  ℕ, ◌+◌, ◌-◌, Bool, not, ◌&&◌, Text, Option, none, some, List, [], ◌∷◌, leb, ◌==◌, if◌then◌else◌,
}
use ping_gaurd.Enums.{MonitorMode, monitor, keep_alive, monitor_and_keep_alive}
use ping_gaurd.Models.{Monitor}
use ping_gaurd.Schemas.{MonitorCreate, MonitorUpdate, given, is_false}
use ping_gaurd.System.{Action, create, update, delete}

pub record Config : Type 0 where
  pub name : Text
  pub url : Text
  pub check_interval_seconds : ℕ
  pub mode : MonitorMode
  pub keep_alive_enabled : Bool
  pub keep_alive_interval_seconds : Option ℕ
  pub keep_alive_path : Option Text

abbrev pub config_of : Monitor → Config
config_of m = record {
  name = m.name;
  url = m.url;
  check_interval_seconds = m.check_interval_seconds;
  mode = m.mode;
  keep_alive_enabled = m.keep_alive_enabled;
  keep_alive_interval_seconds = m.keep_alive_interval_seconds;
  keep_alive_path = m.keep_alive_path;
}

abbrev pub requested : MonitorCreate → Config
requested p = record {
  name = p.name;
  url = p.url.text;
  check_interval_seconds = p.check_interval_seconds;
  mode = p.mode;
  keep_alive_enabled = p.keep_alive_enabled;
  keep_alive_interval_seconds = p.keep_alive_interval_seconds;
  keep_alive_path = p.keep_alive_path;
}

-- Keep-alive on with an interval, or off with neither interval nor path, as the mode says.
abbrev pub fits : Config → Bool
fits c = elim c.mode [
  | monitor ↦
      not c.keep_alive_enabled
      && (not (given c.keep_alive_interval_seconds) && not (given c.keep_alive_path))
  | keep_alive ↦ c.keep_alive_enabled && given c.keep_alive_interval_seconds
  | monitor_and_keep_alive ↦ c.keep_alive_enabled && given c.keep_alive_interval_seconds
]

-- The value that a request gives, else the one before.
abbrev pub set_or : {A : Type 0} → Option A → A → A
set_or none before = before
set_or (some a) before = a

-- A request that switches keep-alive off starts from a configuration without it.
abbrev pub edit_base : MonitorUpdate → Config → Config
edit_base u c =
    if is_false (set_or u.keep_alive_enabled none)
    then record c { mode = monitor; keep_alive_interval_seconds = none; keep_alive_path = none }
    else c

abbrev pub when_fits : Config → Option Config
when_fits c = if fits c then some c else none

infixl 5 ◌>>=◌
abbrev ◌>>=◌ : {A B : Type 0} → Option A → (A → Option B) → Option B
none >>= f = none
some a >>= f = f a

-- An edit succeeds if no required field is null and the outcome fits.
unfoldable pub edit : MonitorUpdate → Config → Option Config
edit u c = do
  let base = edit_base u c
  name ← set_or u.name (some base.name)
  seconds ← set_or u.check_interval_seconds (some base.check_interval_seconds)
  mode ← set_or u.mode (some base.mode)
  enabled ← set_or u.keep_alive_enabled (some base.keep_alive_enabled)
  when_fits (record {
    name = name;
    url = base.url;
    check_interval_seconds = seconds;
    mode = mode;
    keep_alive_enabled = enabled;
    keep_alive_interval_seconds =
        set_or u.keep_alive_interval_seconds base.keep_alive_interval_seconds;
    keep_alive_path = set_or u.keep_alive_path base.keep_alive_path;
  })

pub record Catalog : Type 0 where
  pub configs : ℕ → Option Config
  pub size : ℕ
  pub next : ℕ

abbrev pub empty : Catalog
empty = record { configs = λ j. none; size = 0; next = 1 }

-- A function changed at one key.
abbrev pub put : ℕ → Option Config → (ℕ → Option Config) → ℕ → Option Config
put i value f j = if i == j then value else f j

module _ (max_monitors : ℕ) where
  unfoldable pub act : Action → Catalog → Catalog
  act (create now payload) c = if leb max_monitors c.size then c else record {
    configs = put c.next (some (requested payload)) c.configs;
    size = c.size + 1;
    next = c.next + 1;
  }
  act (update now i payload) c = elim (c.configs i) [
    | none ↦ c
    | some before ↦ elim (edit payload before) [
      | none ↦ c
      | some after ↦ record c { configs = put i (some after) c.configs }
    ]
  ]
  act (delete i) c = elim (c.configs i) [
    | none ↦ c
    | some before ↦ record c { configs = put i none c.configs; size = c.size - 1 }
  ]
  act other c = c

  unfoldable pub replay : List Action → Catalog → Catalog
  replay [] c = c
  replay (a ∷ actions) c = replay actions (act a c)
