-- ===== src/Tasks/Prune.antt =====
-- `prune_ping_results` of app/tasks.py. The `while True` loop takes fuel; `none` says that it ran out.
pub mod Exact
use ping_gaurd.Prelude.{
  ℕ, zero, suc, ◌+◌, ◌-◌, ◌*◌, Bool, not, Option, none, some, List, map, length, take, select,
  sort_by, ltb, ◌==◌, if◌then◌else◌,
}
use ping_gaurd.Models.{PingResult}
use ping_gaurd.Tasks.Sweep.{contains}

-- `datetime.now(UTC) - timedelta(days=retention_days)`
abbrev pub cutoff_of : (now retention_days : ℕ) → ℕ
cutoff_of now retention_days = now - retention_days * 86400000000

abbrev pub is_expired : ℕ → PingResult → Bool
is_expired cutoff r = ltb r.checked_at cutoff

-- The subquery: the ids of the first expired rows by id.
unfoldable pub batch_ids : ℕ → ℕ → List PingResult → List ℕ
batch_ids cutoff limit rows =
    map (λ r. r.id) (take limit (sort_by (λ r. r.id) (select (is_expired cutoff) rows)))

-- `DELETE FROM ping_results WHERE id IN ids`
unfoldable pub delete_ids : List ℕ → List PingResult → List PingResult
delete_ids ids rows = select (λ r. not (contains r.id ids)) rows

unfoldable pub prune_batch : ℕ → ℕ → List PingResult → List PingResult
prune_batch cutoff limit rows = delete_ids (batch_ids cutoff limit rows) rows

-- The loop, with `rowcount` as the difference of the sizes.
unfoldable pub prune_loop : ℕ → ℕ → ℕ → ℕ → List PingResult → Option (ℕ × List PingResult)
prune_loop cutoff limit zero total rows = none
prune_loop cutoff limit (suc fuel) total rows =
    let rest = prune_batch cutoff limit rows in
    let deleted = length rows - length rest in
    let again = prune_loop cutoff limit fuel (total + deleted) rest in
    if deleted == 0 then some (total, rest) else again

unfoldable pub prune_ping_results :
    (now retention_days batch_limit fuel : ℕ) → List PingResult → Option (ℕ × List PingResult)
prune_ping_results now retention_days batch_limit fuel rows =
    prune_loop (cutoff_of now retention_days) batch_limit fuel 0 rows
