-- ===== src/Api/Examples.antt =====
-- The theorems on app/main.py and app/schemas.py at concrete inputs.
use ping_gaurd.Prelude.{
  ℕ, ◌+◌, ◌≡◌, inl, refl, Bool, true, false, ◌&&◌, codes, none, some, List, [], ◌∷◌, ◌++◌, All,
  length, min, count_p,
}
use ping_gaurd.Enums.{MonitorStatus, monitor, keep_alive}
use ping_gaurd.Models.{
  Monitor, PingResult, Database, ok, raise, find_monitor, update_monitor_row, delete_monitor_row,
  cascade_results,
}
use ping_gaurd.Net.Resolve.{UrlLibrary}
use ping_gaurd.Schemas.{
  HttpUrl, MonitorCreate, MonitorUpdate, validate_keep_alive_rules, validate_relative_path,
  validate_url_scheme_and_safety, validate_create,
}
use ping_gaurd.Api.{
  ApiError, read_monitor, new_monitor, create_monitor, updated_row, reset_keep_alive, check_merged,
  assign, update_monitor, delete_monitor, get_monitor_results,
}
use ping_gaurd.Api.Results.{IsLatestFirst, asked_for, results_latest}
use ping_gaurd.Api.Updates.{null_refused}

abbrev pub shop : HttpUrl
shop = record {
  scheme = codes "https";
  username = none;
  password = none;
  host = some (codes "shop.example");
  text = codes "https://shop.example/";
}

abbrev pub no_addresses : UrlLibrary
no_addresses = record {
  urlsplit = λ url. none;
  urljoin = λ base url. some url;
  urlunsplit = λ scheme netloc path query fragment. netloc;
  ip_address = λ t. none;
  ip_text = λ ip. [];
  port_text = λ n. [];
  lower = λ s. s;
  strip = λ s. s;
}

abbrev pub wanted : MonitorCreate
wanted = record {
  name = codes "Shop";
  url = shop;
  check_interval_seconds = 60;
  mode = keep_alive;
  keep_alive_enabled = true;
  keep_alive_interval_seconds = some 300;
  keep_alive_path = some (codes "/health");
}

abbrev row : Monitor
row = new_monitor 1 1000000 wanted

abbrev one_row : Database
one_row = record {
  monitors = row ∷ [];
  results =
      record {
        id = 1;
        monitor_id = 1;
        check_type = "monitor";
        status_code = some 200;
        latency_ms = some 1200;
        error = none;
        checked_at = 2000000;
      }
      ∷ [];
  next_monitor_id = 2;
  next_result_id = 2;
}

-- Keep-alive is switched off and nothing else is said.
abbrev pub switch_off : MonitorUpdate
switch_off = record {
  name = none;
  check_interval_seconds = none;
  mode = none;
  keep_alive_enabled = some (some false);
  keep_alive_interval_seconds = none;
  keep_alive_path = none;
}

abbrev null_name : MonitorUpdate
null_name = record {
  name = some none;
  check_interval_seconds = none;
  mode = none;
  keep_alive_enabled = none;
  keep_alive_interval_seconds = none;
  keep_alive_path = none;
}

abbrev switched_off : Monitor
switched_off = record {
  id = 1;
  name = codes "Shop";
  url = codes "https://shop.example/";
  check_interval_seconds = 60;
  status = MonitorStatus.pending;
  last_checked_at = none;
  next_check_at = some 1000000;
  mode = monitor;
  keep_alive_enabled = false;
  keep_alive_interval_seconds = none;
  keep_alive_path = none;
  next_keep_alive_at = none;
}

program : Unit {0}
unfolding validate_keep_alive_rules validate_relative_path validate_url_scheme_and_safety
    validate_create read_monitor new_monitor create_monitor updated_row reset_keep_alive
    check_merged assign update_monitor delete_monitor find_monitor update_monitor_row
    delete_monitor_row cascade_results
program = tt

null_refused_example : (e : ApiError) × (updated_row 3000000 row null_name ≡ raise e)
null_refused_example = null_refused 3000000 row null_name (inl refl)

abbrev result_at : ℕ → PingResult
result_at time = record {
  id = time;
  monitor_id = 1;
  check_type = "monitor";
  status_code = some 200;
  latency_ms = none;
  error = none;
  checked_at = time;
}

abbrev with_results : Database
with_results = record {
  monitors = row ∷ [];
  results = result_at 5 ∷ result_at 9 ∷ result_at 7 ∷ [];
  next_monitor_id = 2;
  next_result_id = 10;
}

two_latest :
    get_monitor_results 1 2 (some "monitor") with_results
    ≡ (ok (result_at 9 ∷ result_at 7 ∷ []), with_results)
unfolding get_monitor_results find_monitor new_monitor
two_latest = refl

row_found : find_monitor 1 with_results.monitors ≡ some row
unfolding find_monitor new_monitor
row_found = refl

results_latest_example :
    (page rest : List PingResult) × ((get_monitor_results 1 2 none with_results
        ≡ (ok page, with_results))
      × ((length page ≡ min 2 (count_p (asked_for 1 none) with_results.results))
          × (All (λ r. asked_for 1 none r ≡ true) page
              × (IsLatestFirst (page ++ rest)
                  × ((p : PingResult → Bool)
                      → count_p p page + count_p p rest
                        ≡ count_p (λ r. p r && asked_for 1 none r) with_results.results)))))
results_latest_example = results_latest 1 2 none with_results row row_found
