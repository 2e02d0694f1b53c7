-- ===== src/Tasks/Engine.antt =====
-- The health check of app/tasks.py over the probe engine of app/net.py.
use ping_gaurd.Prelude.{
  ℕ, suc, ap, subst, ◌∙◌, ◌≡◌, false, ◌&&◌, Text, Option, none, some, ◌∷◌, List, refl, ==_refl,
  if◌then◌else◌, arith, ltb,
}
use ping_gaurd.Enums.{MonitorStatus, PingOutcome}
use ping_gaurd.Status.{outcome_to_status}
use ping_gaurd.Models.{Monitor, Database, Result, ok, raise, find_monitor, update_monitor_row}
use ping_gaurd.Models.Columns.{status_eq}
use ping_gaurd.Models.Rows.{find_monitor-update}
use ping_gaurd.Net.Resolve.{UrlLibrary, NetError}
use ping_gaurd.Net.Probe.{
  World, ClientSettings, setting_of, probe_loop, probe_result, robust_ping,
  build_probe_error_result,
}
use ping_gaurd.Net.Probe.Ends.{loop-probe, is_retried, retried_details}
use ping_gaurd.Tasks.Probe.{
  PingResultDto, ProbeCall, returned, other_exception, Request, is_transient, execute_ping,
}
use ping_gaurd.Tasks.Probe.Body.{written}
use ping_gaurd.Tasks.Probe.Writes.{ping_writes}

-- What a call of `robust_ping` comes to in the worker, unless its soft time limit cuts it off.
unfoldable pub probe_call : Option (Result NetError PingResultDto) → ProbeCall
probe_call none = other_exception
probe_call (some (ok dto)) = returned dto
probe_call (some (raise e)) = other_exception

outcome_down :
    (dto : PingResultDto)
    → dto.outcome ≡ PingOutcome.unreachable
    → outcome_to_status dto.outcome ≡ MonitorStatus.down
unfolding outcome_to_status
outcome_down dto h = rw h

found_after :
    (i : ℕ) (f : Monitor → Monitor) (ms : List Monitor) {row : Monitor} {after : List Monitor}
    → ((m : Monitor) → (f m).id ≡ m.id)
    → find_monitor i ms ≡ some row
    → after ≡ update_monitor_row i f ms
    → find_monitor i after ≡ some (f row)
found_after i f ms keys there same = ground (arith, find_monitor-update f keys i i ms, ==_refl i)

module _ (lib : UrlLibrary) (settings : ClientSettings) (world : World) where
  -- `lambda m: robust_ping(m.url)`
  unfoldable pub ping_call : Text → ProbeCall
  ping_call url = probe_call (robust_ping lib settings world url false).1

  failed_outcome :
      (url : Text) (e : NetError) {dto : PingResultDto}
      → probe_result lib (setting_of settings settings.http_user_agent false) world url (raise e)
        ≡ ok dto
      → dto.outcome ≡ PingOutcome.unreachable
  unfolding probe_result build_probe_error_result
  failed_outcome url e h = ground arith

  failed_call :
      (url : Text) (e : NetError) {dto : PingResultDto}
      → (let setting = setting_of settings settings.http_user_agent false in
          (probe_loop lib setting world (suc setting.max_redirects) url 0).1 ≡ some (raise e))
      → probe_result lib (setting_of settings settings.http_user_agent false) world url (raise e)
        ≡ ok dto
      → ping_call url ≡ returned dto
  unfolding ping_call probe_call robust_ping
  failed_call url e h k =
      ap probe_call (
        loop-probe lib (setting_of settings settings.http_user_agent false) world url h ∙ ap some k)

  -- Let the probe of a stored monitor end in an exception that has a result and is not one to be
  -- retried, and let the monitor still be stored at the commit. Then the health check sets that monitor
  -- to down with the time of the check, each where it is not what the task had loaded, in that row and in
  -- no other. So the row ends as down, unless the task had loaded it as down: then it ends with the
  -- status that others committed meanwhile.
  pub failure_sets_down :
      (request : Request) (monitor_id : ℕ) (others : Database → Database) (db : Database)
      (m row : Monitor) (c : ℕ) (cs : Text) (e : NetError) (dto : PingResultDto)
      → find_monitor monitor_id db.monitors ≡ some m
      → m.url ≡ c ∷ cs
      → (let setting = setting_of settings settings.http_user_agent false in
          (probe_loop lib setting world (suc setting.max_redirects) m.url 0).1 ≡ some (raise e))
      → probe_result lib (setting_of settings settings.http_user_agent false) world m.url (raise e)
        ≡ ok dto
      → is_retried lib (setting_of settings settings.http_user_agent false) world e ≡ false
      → find_monitor monitor_id (others db).monitors ≡ some row
      → let after = (execute_ping ping_call request monitor_id others db).1.monitors in
        (after
          ≡ update_monitor_row monitor_id
              (written m MonitorStatus.down request.now)
              (others db).monitors)
        × (ended : Monitor) × (find_monitor monitor_id after ≡ some ended)
        × (ended.status
            ≡ (if status_eq m.status MonitorStatus.down then row.status else MonitorStatus.down))
  failure_sets_down request monitor_id others db m row c cs e dto found url_given ended described
        final still =
      let setting = setting_of settings settings.http_user_agent false in
      let call = failed_call m.url e ended described in
      let detail = retried_details lib setting world m.url e described in
      let settled : (is_transient dto.error_detail && ltb request.retries request.max_retries)
          ≡ false =
        ground arith in
      let writes =
        ping_writes ping_call request monitor_id others db m row c cs dto found url_given call
          settled still in
      let down : outcome_to_status dto.outcome ≡ MonitorStatus.down =
        outcome_down dto (failed_outcome m.url e described) in
      let f = written m MonitorStatus.down request.now in
      let same : (execute_ping ping_call request monitor_id others db).1.monitors
          ≡ update_monitor_row monitor_id f (others db).monitors =
        subst
          (λ status.
            (execute_ping ping_call request monitor_id others db).1.monitors
            ≡ update_monitor_row monitor_id (written m status request.now) (others db).monitors)
          down writes.1 in
      (same, f row, found_after monitor_id f (others db).monitors (λ x. refl) still same, refl)
