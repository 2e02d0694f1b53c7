-- ===== src/Models/Columns.antt =====
-- The columns of an UPDATE: SQLAlchemy writes those whose value is not the one that was loaded.
use ping_gaurd.Prelude.{
  ℕ, ◌≡◌, refl, ap, Bool, true, false, Option, none, some, inl, inr, arith, ◌==◌, Bool-cases,
  if◌then◌else◌,
}
use ping_gaurd.Enums.{MonitorMode, MonitorStatus}

abbrev pub mode_eq : MonitorMode → MonitorMode → Bool
mode_eq MonitorMode.monitor MonitorMode.monitor = true
mode_eq MonitorMode.keep_alive MonitorMode.keep_alive = true
mode_eq MonitorMode.monitor_and_keep_alive MonitorMode.monitor_and_keep_alive = true
mode_eq _ _ = false

abbrev pub flag_eq : Bool → Bool → Bool
flag_eq true b = b
flag_eq false true = false
flag_eq false false = true

abbrev pub option_eq : {A : Type 0} → (A → A → Bool) → Option A → Option A → Bool
option_eq same none none = true
option_eq same (some a) (some b) = same a b
option_eq same _ _ = false

-- A column after the UPDATE: it is written only if the object's value is not the loaded one.
abbrev pub column : {A : Type 0} → (A → A → Bool) → (loaded set current : A) → A
column same loaded set current = if same loaded set then current else set

abbrev pub status_eq : MonitorStatus → MonitorStatus → Bool
status_eq MonitorStatus.up MonitorStatus.up = true
status_eq MonitorStatus.degraded MonitorStatus.degraded = true
status_eq MonitorStatus.down MonitorStatus.down = true
status_eq MonitorStatus.pending MonitorStatus.pending = true
status_eq _ _ = false

pub mode_eq→eq : (a b : MonitorMode) → mode_eq a b ≡ true → a ≡ b
mode_eq→eq MonitorMode.monitor MonitorMode.monitor h = refl
mode_eq→eq MonitorMode.keep_alive MonitorMode.keep_alive h = refl
mode_eq→eq MonitorMode.monitor_and_keep_alive MonitorMode.monitor_and_keep_alive h = refl
mode_eq→eq MonitorMode.monitor MonitorMode.keep_alive h = absurd (cc)
mode_eq→eq MonitorMode.monitor MonitorMode.monitor_and_keep_alive h = absurd (cc)
mode_eq→eq MonitorMode.keep_alive MonitorMode.monitor h = absurd (cc)
mode_eq→eq MonitorMode.keep_alive MonitorMode.monitor_and_keep_alive h = absurd (cc)
mode_eq→eq MonitorMode.monitor_and_keep_alive MonitorMode.monitor h = absurd (cc)
mode_eq→eq MonitorMode.monitor_and_keep_alive MonitorMode.keep_alive h = absurd (cc)

pub flag_eq→eq : (a b : Bool) → flag_eq a b ≡ true → a ≡ b
flag_eq→eq true b h = ground arith
flag_eq→eq false true h = absurd (cc)
flag_eq→eq false false h = refl

pub number_eq→eq : (a b : ℕ) → (a == b) ≡ true → a ≡ b
number_eq→eq a b h = ground arith

pub option_eq→eq :
    {A : Type 0} (same : A → A → Bool)
    → ((a b : A) → same a b ≡ true → a ≡ b)
    → (a b : Option A) → option_eq same a b ≡ true
    → a ≡ b
option_eq→eq same eq none none h = refl
option_eq→eq same eq none (some b) h = absurd (cc)
option_eq→eq same eq (some a) none h = absurd (cc)
option_eq→eq same eq (some a) (some b) h = ap some (eq a b h)

-- Over the loaded value itself the UPDATE has the value that was set, written or not.
pub column_loaded :
    {A : Type 0} (same : A → A → Bool)
    → ((a b : A) → same a b ≡ true → a ≡ b)
    → (loaded set : A) → column same loaded set loaded ≡ set
column_loaded same eq loaded set = elim (Bool-cases (same loaded set)) [
  | inl equal ↦ rw equal (eq loaded set equal)
  | inr other ↦ rw other refl
]

pub status_eq→eq : (a b : MonitorStatus) → status_eq a b ≡ true → a ≡ b
status_eq→eq MonitorStatus.up MonitorStatus.up h = refl
status_eq→eq MonitorStatus.up MonitorStatus.degraded h = absurd (cc)
status_eq→eq MonitorStatus.up MonitorStatus.down h = absurd (cc)
status_eq→eq MonitorStatus.up MonitorStatus.pending h = absurd (cc)
status_eq→eq MonitorStatus.degraded MonitorStatus.up h = absurd (cc)
status_eq→eq MonitorStatus.degraded MonitorStatus.degraded h = refl
status_eq→eq MonitorStatus.degraded MonitorStatus.down h = absurd (cc)
status_eq→eq MonitorStatus.degraded MonitorStatus.pending h = absurd (cc)
status_eq→eq MonitorStatus.down MonitorStatus.up h = absurd (cc)
status_eq→eq MonitorStatus.down MonitorStatus.degraded h = absurd (cc)
status_eq→eq MonitorStatus.down MonitorStatus.down h = refl
status_eq→eq MonitorStatus.down MonitorStatus.pending h = absurd (cc)
status_eq→eq MonitorStatus.pending MonitorStatus.up h = absurd (cc)
status_eq→eq MonitorStatus.pending MonitorStatus.degraded h = absurd (cc)
status_eq→eq MonitorStatus.pending MonitorStatus.down h = absurd (cc)
status_eq→eq MonitorStatus.pending MonitorStatus.pending h = refl
