-- ===== src/Tasks/Runs.antt =====
-- Runs of the probe tasks of app/tasks.py, and the theorems about them at such inputs.
use ping_gaurd.Prelude.{
  ℕ, ◌<◌, ◌^◌, ◌≡◌, ◌≢◌, refl, true, false, ◌&&◌, Text, Option, none, some, [], ◌∷◌, ◌++◌, codes,
  String, if◌then◌else◌,
}
use ping_gaurd.Enums.{MonitorStatus, MonitorMode, PingOutcome}
use ping_gaurd.Status.{outcome_to_status}
use ping_gaurd.Models.{Monitor, Database, ok, raise, find_monitor, update_monitor_row}
use ping_gaurd.Tasks.Probe.{
  PingResultDto, ProbeCall, returned, soft_time_limit_exceeded, retry, completed, Request, Harness,
  is_transient, execute_ping, execute_keep_alive, run_probe_task, body, gate, attempt, record_probe,
  settle, get_sync_db, commit, flush_changed, flush_added, insert_result, recover_from_limit,
}
use ping_gaurd.Tasks.Probe.Outcomes.{task_atomic}
use ping_gaurd.Tasks.Probe.Effects.{retry_exact, keep_alive_preserves_status}
use ping_gaurd.Models.Columns.{status_eq}
use ping_gaurd.Tasks.Probe.Body.{checked, written}
use ping_gaurd.Tasks.Probe.Writes.{ping_writes, keep_alive_limit_sets_down}
use ping_gaurd.Net.Http.{invalid_url}
use ping_gaurd.Net.Resolve.{
  SplitResult, UrlLibrary, port_is, failed, dns_resolution, async_resolve_and_validate_target,
  check_url, split_target, host_of, resolve_name, port_of,
}
use ping_gaurd.Net.Probe.{
  World, ClientSettings, probe_loop, hop_request, probe_result, build_probe_error_result,
}
use ping_gaurd.Tasks.Engine.{ping_call, failure_sets_down}

abbrev shop : Monitor
shop = record {
  id = 4;
  name = codes "shop";
  url = codes "https://shop.example/";
  check_interval_seconds = 60;
  status = MonitorStatus.up;
  last_checked_at = none;
  next_check_at = some 0;
  mode = MonitorMode.monitor_and_keep_alive;
  keep_alive_enabled = true;
  keep_alive_interval_seconds = some 60;
  keep_alive_path = none;
  next_keep_alive_at = some 0;
}

abbrev stored_shop : Database
stored_shop = record { monitors = shop ∷ []; results = []; next_monitor_id = 5; next_result_id = 1 }

abbrev first_try : Request
first_try = record { retries = 0; max_retries = 3; now = 100; now_after_limit = 900 }

abbrev dto : PingOutcome → Option ℕ → Option String → PingResultDto
dto outcome code error = record {
  outcome = outcome;
  status_code = code;
  latency_ms = some 1500;
  error_detail = error;
  original_url = shop.url;
  final_url = none;
}

abbrev refused : Text → ProbeCall
refused url = returned (dto PingOutcome.unreachable none (some "connect_error"))

abbrev answered : Text → ProbeCall
answered url = returned (dto PingOutcome.degraded (some 404) none)

abbrev stays : Database → Database
stays db = db

program : Unit {0}
unfolding execute_ping execute_keep_alive run_probe_task body gate attempt record_probe settle
    get_sync_db commit flush_changed flush_added insert_result recover_from_limit find_monitor
    update_monitor_row is_transient outcome_to_status
program = tt

abbrev ping_harness : (Text → ProbeCall) → Harness
ping_harness robust_ping = record {
  probe = λ m. robust_ping m.url;
  check_type = "monitor";
  update_monitor_status = true;
  gatekeeper = none;
}

-- The first refused connection asks for a retry after one second.
refused_retries :
    (run_probe_task (ping_harness refused) first_try 4 stays stored_shop).0
    ≡ raise (retry "connect_error" 1)
unfolding program
refused_retries = refl

task_atomic_example :
    (run_probe_task (ping_harness refused) first_try 4 stays stored_shop).1 ≡ stored_shop
task_atomic_example =
    task_atomic (ping_harness refused) first_try 4 stays stored_shop (retry "connect_error" 1)
      refused_retries

retry_exact_example :
    (0 < 3) × (◌≡◌ {A = ℕ} 1 (2 ^ 0)) × (is_transient (some "connect_error") ≡ true)
retry_exact_example =
    retry_exact (ping_harness refused) first_try 4 stays stored_shop "connect_error" 1
      refused_retries

abbrev woken : Text → Option Text → ProbeCall
woken url path = refused url

never_limited : (url : Text) (path : Option Text) → woken url path ≢ soft_time_limit_exceeded
never_limited url path e = cc

keep_alive_preserves_status_example :
    (execute_keep_alive woken first_try 4 stays stored_shop).1.monitors ≡ stored_shop.monitors
keep_alive_preserves_status_example =
    keep_alive_preserves_status woken first_try 4 stays stored_shop never_limited

abbrev limited : Text → Option Text → ProbeCall
limited url path = soft_time_limit_exceeded

found_shop : find_monitor 4 stored_shop.monitors ≡ some shop
unfolding program
found_shop = refl

keep_alive_limit_sets_down_example :
    let (result, after) = execute_keep_alive limited first_try 4 stays stored_shop in
    (result
      ≡ ok (completed 4 "keep_alive" PingOutcome.down none none (some "task_soft_time_limit") none))
    × (after.monitors
        ≡ update_monitor_row 4 (written shop MonitorStatus.down 900) stored_shop.monitors)
    × (find_monitor 4 after.monitors ≡ some (checked MonitorStatus.down 900 shop))
keep_alive_limit_sets_down_example =
    keep_alive_limit_sets_down limited first_try 4 stays stored_shop shop shop b'h'
      (codes "ttps://shop.example/") found_shop refl refl refl found_shop

not_transient : (is_transient none && true) ≡ false
unfolding program
not_transient = refl

ping_writes_example :
    let (result, after) = execute_ping answered first_try 4 stays stored_shop in
    (result ≡ ok (completed 4 "monitor" PingOutcome.degraded (some 404) (some 1500) none none))
    × (after.monitors
        ≡ update_monitor_row 4
            (written shop (outcome_to_status PingOutcome.degraded) 100)
            stored_shop.monitors)
    × (after.results
        ≡ stored_shop.results
          ++ record {
            id = 1;
            monitor_id = 4;
            check_type = "monitor";
            status_code = some 404;
            latency_ms = some 1500;
            error = none;
            checked_at = 100;
          }
            ∷ [])
ping_writes_example =
    ping_writes answered first_try 4 stays stored_shop shop shop b'h' (codes "ttps://shop.example/")
      (dto PingOutcome.degraded (some 404) none) found_shop refl refl not_transient found_shop

-- A URL of one host, which the name server does not know.
abbrev shop_parts : SplitResult
shop_parts = record {
  scheme = codes "https";
  netloc = codes "shop.example";
  path = codes "/";
  query = [];
  fragment = [];
  hostname = some (codes "shop.example");
  username = none;
  password = none;
  port = port_is none;
}

abbrev parsers : UrlLibrary
parsers = record {
  urlsplit = λ url. some shop_parts;
  urljoin = λ base url. some url;
  urlunsplit = λ scheme netloc path query fragment. netloc;
  ip_address = λ t. none;
  ip_text = λ ip. [];
  port_text = λ n. [];
  lower = λ s. s;
  strip = λ s. s;
}

abbrev unknown_host : World
unknown_host = record {
  dns = λ hop host number. failed;
  send = λ hop r. invalid_url;
  round_trip = λ hop. 0;
  elapsed = 2100;
}

abbrev client_settings : ClientSettings
client_settings = record {
  http_user_agent = codes "PingGuard/1.0";
  http_keep_alive_user_agent = codes "PingGuard-KeepAlive/1.0";
  http_max_response_bytes = 1048576;
  http_max_redirects = 5;
}

abbrev dns_error : PingResultDto
dns_error = record {
  outcome = PingOutcome.unreachable;
  status_code = none;
  latency_ms = some 2100;
  error_detail = some "dns_error";
  original_url = shop.url;
  final_url = none;
}

probing : Unit {0}
unfolding find_monitor probe_loop hop_request async_resolve_and_validate_target check_url
    split_target host_of resolve_name port_of probe_result build_probe_error_result
probing = tt

failure_sets_down_example :
    let after =
      (execute_ping
        (ping_call parsers client_settings unknown_host)
        first_try
        4
        stays
        stored_shop).1.monitors in
    (after ≡ update_monitor_row 4 (written shop MonitorStatus.down 100) stored_shop.monitors)
    × (ended : Monitor) × (find_monitor 4 after ≡ some ended)
    × (ended.status
        ≡ (if status_eq shop.status MonitorStatus.down then shop.status else MonitorStatus.down))
unfolding probing
failure_sets_down_example =
    failure_sets_down parsers client_settings unknown_host first_try 4 stays stored_shop shop shop
      b'h' (codes "ttps://shop.example/") dns_resolution dns_error refl refl refl refl refl refl
