-- ===== src/Worker.antt =====
-- app/worker.py: the configuration of Celery, and the tasks that Beat sends, with the settings that
-- app/tasks.py reads.
pub mod Cycle
pub mod Checked
pub mod Deployed
mod Examples
use ping_gaurd.Prelude.{ℕ, Bool, true, false, String, Option, List, [], ◌∷◌}
use ping_gaurd.Models.{Monitor, PingResult}
use ping_gaurd.Config.{ℤ, Settings, magnitude}
use ping_gaurd.Tasks.Sweep.{Outside, Sweep, sweep_due_monitors}
use ping_gaurd.Tasks.Prune.{prune_ping_results}

-- An interval in microseconds, or `crontab(hour, minute)`.
pub data Schedule : Type 0 where
  every : ℤ → Schedule
  crontab : (hour minute : ℕ) → Schedule

pub record BeatEntry : Type 0 where
  pub task : String
  pub schedule : Schedule

pub record CeleryConf : Type 0 where
  pub task_serializer : String
  pub result_serializer : String
  pub accept_content : List String
  pub task_acks_late : Bool
  pub worker_prefetch_multiplier : ℕ
  pub task_soft_time_limit : ℤ
  pub task_time_limit : ℤ
  pub result_expires : ℕ
  pub task_track_started : Bool
  pub beat_schedule : List (String × BeatEntry)

-- `celery_app.conf`
unfoldable pub celery_conf : Settings → CeleryConf
celery_conf s = record {
  task_serializer = "json";
  result_serializer = "json";
  accept_content = "json" ∷ [];
  task_acks_late = true;
  worker_prefetch_multiplier = 1;
  task_soft_time_limit = s.celery_soft_time_limit;
  task_time_limit = s.celery_hard_time_limit;
  result_expires = 3600;
  task_track_started = true;
  beat_schedule =
      (
        "sweep-due-monitors",
        record { task = "app.tasks.sweep_due_monitors"; schedule = every s.sweep_interval },
      )
      ∷ (
        "prune-ping-results",
        record { task = "app.tasks.prune_ping_results"; schedule = crontab 3 0 },
      )
      ∷ [];
}

-- `sweep_due_monitors()`, as Beat sends it.
unfoldable pub scheduled_sweep :
    Settings → (outside outside' : Outside) (now : ℕ) → List Monitor → Sweep × Sweep
scheduled_sweep s outside outside' now table =
    sweep_due_monitors outside outside' now (magnitude s.sweep_batch_size)
      (magnitude s.sweep_max_batches) table

-- `prune_ping_results()`, as Beat sends it.
unfoldable pub scheduled_prune :
    Settings → (now fuel : ℕ) → List PingResult → Option (ℕ × List PingResult)
scheduled_prune s now fuel rows =
    prune_ping_results now (magnitude s.ping_results_retention_days)
      (magnitude s.retention_batch_size) fuel rows
