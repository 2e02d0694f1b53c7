-- ===== src/Config/Examples.antt =====
-- The theorems on app/config.py at its defaults.
use ping_gaurd.Prelude.{◌≡◌, refl, true, Option, none, some, Text, codes, List, [], ◌∷◌, drop, All}
use ping_gaurd.Net.Resolve.{UrlLibrary, port_is, text_in}
use ping_gaurd.Config.{
  Settings, pos, validate_api_key, validate_positive, validate_max_redirects,
  validate_timeout_budget, validate_settings, prod, DatabaseUrl, is_placeholder, validate_log_level,
  validate_database_url, validate_db_password,
}
use ping_gaurd.Config.Origins.{
  one_text, split_commas, strip_items, raw_origins, origin_parts, origin_of, collect_origins,
  parse_and_validate_cors_origins,
}
use ping_gaurd.Config.Origins.Exact.{NoRepeats, IsOriginOf, cors_origins_exact}
use ping_gaurd.Urls.{rstrip_slash}
use ping_gaurd.Models.{ok}

abbrev pub defaults : Settings
defaults = record {
  environment = prod;
  cors_allowed_origins = one_text (codes "https://a.example/,https://b.example");
  database_url = codes "postgresql://pingguard@db/pingguard";
  log_level = codes "INFO";
  api_key = codes "a-key-of-many-characters";
  sweep_interval = pos 15000000;
  http_connect_timeout = pos 2000000;
  http_read_timeout = pos 5000000;
  http_write_timeout = pos 5000000;
  http_pool_timeout = pos 2000000;
  probe_total_timeout = pos 8000000;
  http_max_response_bytes = pos 1048576;
  celery_soft_time_limit = pos 10;
  celery_hard_time_limit = pos 15;
  rate_limit_writes_per_minute = pos 60;
  max_monitors = pos 100;
  ping_results_retention_days = pos 30;
  retention_batch_size = pos 10000;
  sweep_batch_size = pos 500;
  sweep_max_batches = pos 20;
  http_max_redirects = pos 5;
  http_user_agent = codes "PingGuard/1.0";
  http_keep_alive_user_agent = codes "PingGuard-KeepAlive/1.0";
}

-- A parser of origins.
abbrev pub origins_only : UrlLibrary
origins_only = record {
  urlsplit = λ url. some (record {
    scheme = codes "https";
    netloc = drop 8 url;
    path = [];
    query = [];
    fragment = [];
    hostname = some (drop 8 url);
    username = none;
    password = none;
    port = port_is none;
  });
  urljoin = λ base url. some url;
  urlunsplit = λ scheme netloc path query fragment. netloc;
  ip_address = λ t. none;
  ip_text = λ ip. [];
  port_text = λ n. [];
  lower = λ s. s;
  strip = λ s. s;
}

abbrev pub strong : Text → Option DatabaseUrl
strong url =
    some (record { database = some (codes "pingguard"); password = some (codes "correct-horse") })

program : Unit {0}
unfolding is_placeholder validate_api_key validate_positive validate_max_redirects
    validate_timeout_budget validate_settings validate_log_level validate_database_url
    validate_db_password parse_and_validate_cors_origins raw_origins strip_items split_commas
    collect_origins origin_of origin_parts rstrip_slash
program = tt

abbrev raw : List Text
raw = codes "https://a.example/" ∷ codes "https://b.example" ∷ codes "https://a.example" ∷ []

abbrev origins : List Text
origins = codes "https://a.example" ∷ codes "https://b.example" ∷ []

cors_origins_exact_example :
    NoRepeats origins
    × (All (λ item. (o : Text) × (IsOriginOf origins_only item o × (text_in o origins ≡ true))) raw
        × All
            (λ o. (item : Text) × ((text_in item raw ≡ true) × IsOriginOf origins_only item o))
            origins)
unfolding program
cors_origins_exact_example =
    cors_origins_exact origins_only
      (one_text (codes "https://a.example/,https://b.example,https://a.example")) raw origins refl
      refl

pub defaults_pass : validate_settings origins_only (λ t. t) strong defaults ≡ ok tt
unfolding program
defaults_pass = refl
