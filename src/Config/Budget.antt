-- ===== src/Config/Budget.antt =====
-- What settings that pass validation guarantee.
use ping_gaurd.Prelude.{◌+◌, ◌*◌, ◌≤◌, ◌<◌, ◌≡◌, Text, Bool, Option, arith, length}
use ping_gaurd.Models.{ok}
use ping_gaurd.Net.Resolve.{UrlLibrary}
use ping_gaurd.Net.Probe.{World, robust_ping, setting_of}
use ping_gaurd.Net.Probe.Ends.{probe_ends}
use ping_gaurd.Config.{
  Settings, DatabaseUrl, magnitude, validate_positive, validate_max_redirects,
  validate_timeout_budget, validate_settings, probe_settings,
}

-- Settings that pass validation leave the probe's deadline two seconds before the worker's soft time
-- limit and that three seconds before the hard one; the limit on writes, the batches and the number of
-- monitors are positive, and at most twenty redirects are allowed.
pub settings_budget :
    (lib : UrlLibrary) (upper : Text → Text) (make_url : Text → Option DatabaseUrl) (s : Settings)
    → validate_settings lib upper make_url s ≡ ok tt
    → (magnitude s.probe_total_timeout + 2000000 ≤ magnitude s.celery_soft_time_limit * 1000000)
      × (magnitude s.celery_soft_time_limit + 3 ≤ magnitude s.celery_hard_time_limit)
      × (0 < magnitude s.probe_total_timeout)
      × (0 < magnitude s.rate_limit_writes_per_minute)
      × (0 < magnitude s.max_monitors)
      × (0 < magnitude s.sweep_batch_size)
      × (0 < magnitude s.sweep_max_batches)
      × (0 < magnitude s.retention_batch_size)
      × (magnitude s.http_max_redirects ≤ 20)
unfolding validate_settings validate_positive validate_max_redirects validate_timeout_budget
settings_budget lib upper make_url s h = ground arith

-- With settings that pass validation, a health check hands at most 21 requests to the client, whatever
-- the servers answer.
pub validated_requests :
    (lib : UrlLibrary) (upper : Text → Text) (make_url : Text → Option DatabaseUrl) (s : Settings)
    (world : World) (url : Text) (allow_loopback : Bool)
    → validate_settings lib upper make_url s ≡ ok tt
    → length (robust_ping lib (probe_settings s) world url allow_loopback).0 ≤ 21
unfolding robust_ping probe_settings
validated_requests lib upper make_url s world url allow_loopback h =
    let (few, ended) =
      probe_ends lib
        (setting_of (probe_settings s) (probe_settings s).http_user_agent allow_loopback) world
        url in
    let bound = settings_budget lib upper make_url s h in ground arith
