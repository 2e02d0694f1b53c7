-- ===== src/Net/Probe.antt =====
-- `perform_http_probe` and the synchronous bridges of app/net.py. The client, the resolver and the clock
-- are arguments that see the number of the hop, so their answers may change from hop to hop. Latencies
-- count hundredths of a millisecond.
mod Exceptions
pub mod Loop
pub mod Targets
pub mod Ends
use ping_gaurd.Prelude.{
  ℕ, zero, suc, ◌+◌, ◌*◌, Bool, true, false, not, ◌&&◌, ◌||◌, Text, codes, String, Option, none,
  some, List, [], ◌∷◌, ◌++◌, ltb, leb, ◌==◌, text_eq, if◌then◌else◌,
}
use ping_gaurd.Enums.{PingOutcome}
use ping_gaurd.Status.{classify_status_code}
use ping_gaurd.Models.{Result, ok, raise}
use ping_gaurd.Urls.{safe_join_url}
use ping_gaurd.Net.Http.{
  Cause, HttpError, connect_timeout, read_timeout, write_timeout, pool_timeout, too_many_redirects,
  connect_error, request_error, HttpRequest, Chunk, bytes, broken, too_late, HttpResponse, Reply,
  answered, request_failed, invalid_url, deadline_passed,
}
use ping_gaurd.Net.Resolve.{
  SplitResult, UrlLibrary, NetError, ssrf_blocked, dns_resolution, value_error, deadline,
  http_error, bad_url, DnsReply, bad_port, port_is, ◌>>=◌, ◌>>◌, forbid, truthy, text_in, is_http,
  async_resolve_and_validate_target,
}
use ping_gaurd.Tasks.Probe.{PingResultDto}
unfoldable pub use ping_gaurd.Net.Probe.Exceptions.*

-- The configuration, and what the world does during one probe.
pub record Setting : Type 0 where
  pub user_agent : Text
  pub max_bytes : ℕ
  pub max_redirects : ℕ
  pub allow_loopback : Bool

pub record World : Type 0 where
  pub dns : (hop : ℕ) → Text → ℕ → DnsReply
  pub send : (hop : ℕ) → HttpRequest → Reply
  pub round_trip : (hop : ℕ) → ℕ
  pub elapsed : ℕ

-- The loop's variables after it: the status code, the latency and the final URL.
pub record Finished : Type 0 where
  pub status_code : ℕ
  pub latency_ms : ℕ
  pub final_url : Text
  pub bytes_read : ℕ

pub data Next : Type 0 where
  finish : Finished → Next
  follow : Text → Next

-- `path or "/"`
abbrev pub or_slash : Text → Text
or_slash [] = codes "/"
or_slash (c ∷ cs) = c ∷ cs

-- The streaming loop: it stops after the chunk that exceeds the limit.
unfoldable pub read_body : (max_bytes bytes_read : ℕ) → List Chunk → Result NetError ℕ
read_body max_bytes n [] = ok n
read_body max_bytes n (bytes k ∷ chunks) =
    let rest = read_body max_bytes (n + k) chunks in
    if ltb max_bytes (n + k) then ok (n + k) else rest
read_body max_bytes n (broken e ∷ chunks) = raise (http_error e)
read_body max_bytes n (too_late ∷ chunks) = raise deadline

-- The codes that redirect if there is a Location header.
abbrev pub redirect_code : ℕ → Bool
redirect_code code = code == 301 || (code == 302 || (code == 303 || (code == 307 || code == 308)))

abbrev pub is_some_text : Option Text → Bool
is_some_text none = false
is_some_text (some t) = true

unfoldable pub redirects : HttpResponse → Bool
redirects response =
    response.is_redirect || (redirect_code response.status_code && is_some_text response.location)

module _ (lib : UrlLibrary) where
  open lib use {urlsplit, urljoin, urlunsplit, port_text, lower, strip}

  -- The port of the rewritten target: only one that is written and not 0.
  abbrev pub port_suffix : SplitResult → Result NetError Text
  port_suffix parsed = elim parsed.port [
    | bad_port ↦ raise value_error
    | port_is p ↦ elim p [
      | none ↦ ok []
      | some n ↦ ok (if n == 0 then [] else codes ":" ++ port_text n)
    ]
  ]

  -- Step 2: the request goes to the pinned address, with the Host header and the SNI of the URL.
  unfoldable pub build_pinned_request : Text → SplitResult → Text → Result NetError HttpRequest
  build_pinned_request user_agent parsed pinned_ip = do
    suffix ← port_suffix parsed
    let host_literal =
        if text_contains (codes ":") pinned_ip
        then codes "[" ++ (pinned_ip ++ codes "]")
        else pinned_ip
    let https = text_eq (lower parsed.scheme) (codes "https")
    ok (record {
      url =
          urlunsplit parsed.scheme (host_literal ++ suffix) (or_slash parsed.path) parsed.query
            parsed.fragment;
      host = parsed.netloc;
      user_agent = user_agent;
      sni_hostname = if https && truthy parsed.hostname then parsed.hostname else none;
    })

  -- The URL that a Location header leads to.
  unfoldable pub next_url : Text → Text → Result NetError Text
  next_url current_url location = elim (urljoin current_url (strip location)) [
    | none ↦ raise value_error
    | some url ↦ elim (urlsplit url) [
      | none ↦ raise value_error
      | some parsed ↦ do forbid (not (is_http lib parsed)); ok url
    ]
  ]

  module _ (setting : Setting) (world : World) where
    -- Steps 1 and 2 of a hop. Only the first may go to a loopback address.
    unfoldable pub hop_request : Text → ℕ → Result NetError HttpRequest
    hop_request current_url redirect_count = do
      let hop_allow_loopback = if redirect_count == 0 then setting.allow_loopback else false
      (parsed, pinned_ip) ←
          async_resolve_and_validate_target lib current_url hop_allow_loopback
            (world.dns redirect_count)
      build_pinned_request setting.user_agent parsed pinned_ip

    abbrev follow_redirect : Text → ℕ → HttpResponse → Result NetError Next
    follow_redirect current_url redirect_count response =
        let latency = world.round_trip redirect_count * 100 in
        if leb setting.max_redirects redirect_count
        then raise (http_error too_many_redirects)
        else if truthy response.location
        then elim response.location [
          | none ↦ raise value_error
          | some l ↦ do url ← next_url current_url l; ok (follow url)
        ]
        else ok (
            finish (record {
              status_code = response.status_code;
              latency_ms = latency;
              final_url = current_url;
              bytes_read = 0;
            }))

    -- Step 3: what the answer to the hop's request leads to.
    unfoldable pub hop_reply : Text → ℕ → Reply → Result NetError Next
    hop_reply current_url redirect_count (request_failed e) = raise (http_error e)
    hop_reply current_url redirect_count invalid_url = raise bad_url
    hop_reply current_url redirect_count deadline_passed = raise deadline
    hop_reply current_url redirect_count (answered response) =
        if redirects response then follow_redirect current_url redirect_count response else do
          n ← read_body setting.max_bytes 0 response.body
          ok (
              finish (record {
                status_code = response.status_code;
                latency_ms = world.round_trip redirect_count * 100;
                final_url = current_url;
                bytes_read = n;
              }))

    -- The loop on fuel; `none` is fuel run out. The requests that it hands to the client are kept.
    unfoldable pub probe_loop : ℕ → Text → ℕ → List HttpRequest × Option (Result NetError Finished)
    probe_loop zero current_url redirect_count = ([], none)
    probe_loop (suc fuel) current_url redirect_count =
        elim (hop_request current_url redirect_count) [
          | raise e ↦ ([], some (raise e))
          | ok request ↦
              elim (hop_reply current_url redirect_count (world.send redirect_count request)) [
                | raise e ↦ (request ∷ [], some (raise e))
                | ok next ↦ elim next [
                  | finish f ↦ (request ∷ [], some (ok f))
                  | follow url ↦
                      let rest = probe_loop fuel url (suc redirect_count) in
                      (request ∷ rest.0, rest.1)
                ]
              ]
        ]

    -- `_build_probe_error_result` with the outcome `unreachable`.
    unfoldable pub build_probe_error_result : Text → String → Option ℕ → PingResultDto
    build_probe_error_result url detail latency = record {
      outcome = PingOutcome.unreachable;
      status_code = none;
      latency_ms = latency;
      error_detail = some detail;
      original_url = url;
      final_url = none;
    }

    -- Step 4: a code without a class counts as down.
    abbrev pub outcome_of : ℕ → PingOutcome
    outcome_of code = elim (classify_status_code code) [
      | none ↦ PingOutcome.down
      | some outcome ↦ outcome
    ]

    -- The result of a finished loop, and the handlers of the exceptions that have one.
    unfoldable pub probe_result : Text → Result NetError Finished → Result NetError PingResultDto
    probe_result url (ok f) = ok (record {
      outcome = outcome_of f.status_code;
      status_code = some f.status_code;
      latency_ms = some f.latency_ms;
      error_detail = none;
      original_url = url;
      final_url = some f.final_url;
    })
    probe_result url (raise ssrf_blocked) = ok (build_probe_error_result url "ssrf_blocked" none)
    probe_result url (raise dns_resolution) =
        ok (build_probe_error_result url "dns_error" (some world.elapsed))
    probe_result url (raise (http_error e)) =
        ok (build_probe_error_result url (error_detail_of lib e) (some world.elapsed))
    probe_result url (raise deadline) =
        ok (build_probe_error_result url "total_timeout" (some world.elapsed))
    probe_result url (raise value_error) = raise value_error
    probe_result url (raise bad_url) = raise bad_url

    -- The requests that a probe makes, and its result. At most `max_redirects` redirects are followed.
    unfoldable pub perform_http_probe :
        Text → List HttpRequest × Option (Result NetError PingResultDto)
    perform_http_probe url =
        let run = probe_loop (suc setting.max_redirects) url 0 in
        (run.0, elim run.1 [ none ↦ none | some result ↦ some (probe_result url result) ])

-- The settings that the bridges read.
pub record ClientSettings : Type 0 where
  pub http_user_agent : Text
  pub http_keep_alive_user_agent : Text
  pub http_max_response_bytes : ℕ
  pub http_max_redirects : ℕ

abbrev pub setting_of : ClientSettings → Text → Bool → Setting
setting_of s agent loopback = record {
  user_agent = agent;
  max_bytes = s.http_max_response_bytes;
  max_redirects = s.http_max_redirects;
  allow_loopback = loopback;
}

module _ (lib : UrlLibrary) (settings : ClientSettings) (world : World) where
  unfoldable pub robust_ping :
      Text → Bool → List HttpRequest × Option (Result NetError PingResultDto)
  robust_ping url allow_loopback =
      perform_http_probe lib (setting_of settings settings.http_user_agent allow_loopback) world url

  unfoldable pub robust_keep_alive :
      Text → Option Text → Bool → List HttpRequest × Option (Result NetError PingResultDto)
  robust_keep_alive url path allow_loopback =
      perform_http_probe lib
        (setting_of settings settings.http_keep_alive_user_agent allow_loopback) world
        (safe_join_url lib.strip url path)
