-- ===== src/Net/Probe/Ends.antt =====
-- How a probe ends: within its bounds, and with a result of one of two shapes.
use ping_gaurd.Prelude.{
  ℕ, suc, ◌+◌, ◌≤◌, ◌<◌, ◌≡◌, refl, ◌⊎◌, inl, inr, Bool, true, false, not, Text, String, Option,
  none, some, List, [], ◌∷◌, arith, All, length, ltb, str_in, if◌then◌else◌, Bool-cases,
}
use ping_gaurd.Enums.{PingOutcome}
use ping_gaurd.Models.{Result, ok, raise}
use ping_gaurd.Net.Http.{
  Cause, HttpError, connect_timeout, read_timeout, write_timeout, pool_timeout, too_many_redirects,
  connect_error, request_error, Chunk, bytes, broken, too_late, Reply, answered, request_failed,
  invalid_url, deadline_passed,
}
use ping_gaurd.Net.Resolve.{
  UrlLibrary, NetError, ssrf_blocked, dns_resolution, value_error, deadline, bad_url, http_error,
}
use ping_gaurd.Net.Probe.{
  Setting, World, Finished, follow, read_body, is_tls_exception, error_detail_of, hop_reply,
  redirects, probe_loop, outcome_of, build_probe_error_result, probe_result, perform_http_probe,
}
use ping_gaurd.Net.Probe.Loop.{loop_ind}
use ping_gaurd.Tasks.Probe.{PingResultDto, is_transient}

abbrev pub IsWithin : ℕ → Chunk → Type 0
IsWithin k (bytes n) = n ≤ k
IsWithin k (broken e) = Unit
IsWithin k too_late = Unit

read_body_from :
    (max_bytes k n : ℕ) (chunks : List Chunk) {total : ℕ}
    → n ≤ max_bytes
    → All (IsWithin k) chunks
    → read_body max_bytes n chunks ≡ ok total
    → total ≤ max_bytes + k
unfolding read_body
read_body_from m k n [] low small h = ground arith
read_body_from m k n (bytes b ∷ chunks) low small h = elim (Bool-cases (ltb m (n + b))) [
  | inl over ↦ ground arith
  | inr fits ↦ read_body_from m k (n + b) chunks (ground arith) small.1 (ground arith)
]
read_body_from m k n (broken e ∷ chunks) low small h = absurd (cc)
read_body_from m k n (too_late ∷ chunks) low small h = absurd (cc)

-- If no chunk is longer than k: a body that is read to its end or cut off counts at most
-- `max_bytes` + k bytes.
pub read_body_bounded :
    (max_bytes k : ℕ) (chunks : List Chunk) {total : ℕ}
    → All (IsWithin k) chunks
    → read_body max_bytes 0 chunks ≡ ok total
    → total ≤ max_bytes + k
read_body_bounded m k chunks small h = read_body_from m k 0 chunks (ground arith) small h

-- The details of the results that a failed probe can have.
abbrev pub error_details : List String
error_details =
    "ssrf_blocked" ∷ "dns_error" ∷ "total_timeout" ∷ "connect_timeout" ∷ "read_timeout"
    ∷ "write_timeout" ∷ "pool_timeout" ∷ "redirect_error" ∷ "tls_error" ∷ "connect_error"
    ∷ "request_error" ∷ []

module _ (lib : UrlLibrary) (setting : Setting) (world : World) where
  follow_bound :
      (url : Text) (c : ℕ) (reply : Reply) {next : Text}
      → hop_reply lib setting world url c reply ≡ ok (follow next)
      → c < setting.max_redirects
  unfolding hop_reply
  follow_bound url c (request_failed e) h = absurd (cc)
  follow_bound url c invalid_url h = absurd (cc)
  follow_bound url c deadline_passed h = absurd (cc)
  follow_bound url c (answered response) h = elim (Bool-cases (redirects response)) [
    | inl d ↦ ground arith
    | inr d ↦ ground arith
  ]

  loop_bounds :
      (fuel : ℕ) (url : Text) (c : ℕ)
      → c + fuel ≡ suc setting.max_redirects
      → c ≤ setting.max_redirects
      → (length (probe_loop lib setting world fuel url c).0 ≤ fuel)
        × ((result : Result NetError Finished) × ((probe_loop lib setting world fuel url c).1
              ≡ some result))
  loop_bounds =
      loop_ind lib setting world
        (λ fuel url c run.
          c + fuel ≡ suc setting.max_redirects
          → c ≤ setting.max_redirects
          → (length run.0 ≤ fuel) × ((result : Result NetError Finished) × (run.1 ≡ some result)))
        (λ url c budget low. absurd (ground arith))
        (λ fuel url c e d budget low. (ground arith, (_, refl)))
        (λ fuel url c r e d k budget low. (ground arith, (_, refl)))
        (λ fuel url c r f d k budget low. (ground arith, (_, refl)))
        (λ fuel url c r next rest d k later budget low.
          let below = follow_bound url c (world.send c r) k in
          let (few, (result, e)) = later (ground arith) (ground arith) in
          (ground arith, (result, e)))

  pub loop-probe :
      (url : Text) {result : Result NetError Finished}
      → (probe_loop lib setting world (suc setting.max_redirects) url 0).1 ≡ some result
      → (perform_http_probe lib setting world url).1
        ≡ some (probe_result lib setting world url result)
  unfolding perform_http_probe
  loop-probe url h = ground arith

  -- A probe comes to an end, on the fuel that it is given: it hands at most `max_redirects` + 1
  -- requests to the client, and it has a result or an exception, whatever the servers answer.
  pub probe_ends :
      (url : Text)
      → (length (perform_http_probe lib setting world url).0 ≤ suc setting.max_redirects)
        × ((result : Result NetError PingResultDto) × ((perform_http_probe lib setting world url).1
              ≡ some result))
  unfolding perform_http_probe
  probe_ends url =
      let (few, (result, e)) =
        loop_bounds (suc setting.max_redirects) url 0 (ground arith) (ground arith) in
      (few, (probe_result lib setting world url result, loop-probe url e))

  -- A result with a status code and no error, or one with an error and nothing else but a latency.
  abbrev pub IsWellFormed : Text → PingResultDto → Type 0
  IsWellFormed url dto =
      (dto.original_url ≡ url)
      × (((code latency : ℕ) × (final : Text) × (dto.status_code ≡ some code)
            × (dto.latency_ms ≡ some latency)
            × (dto.error_detail ≡ none)
            × (dto.final_url ≡ some final)
            × (dto.outcome ≡ outcome_of lib setting world code))
          ⊎ ((detail : String) × (dto.status_code ≡ none)
              × (dto.error_detail ≡ some detail)
              × (dto.final_url ≡ none)
              × (dto.outcome ≡ PingOutcome.unreachable)
              × (str_in detail error_details ≡ true)))

  detail_listed : (e : HttpError) → str_in (error_detail_of lib e) error_details ≡ true
  unfolding error_detail_of
  detail_listed connect_timeout = refl
  detail_listed read_timeout = refl
  detail_listed write_timeout = refl
  detail_listed pool_timeout = refl
  detail_listed too_many_redirects = refl
  detail_listed (connect_error causes) = elim (Bool-cases (is_tls_exception lib causes)) [
    | inl d ↦ rw d
    | inr d ↦ rw d
  ]
  detail_listed request_error = refl

  -- What `perform_http_probe` may return or raise.
  abbrev pub IsAllowed : Text → Result NetError PingResultDto → Type 0
  IsAllowed url (ok dto) = IsWellFormed url dto
  IsAllowed url (raise e) = (e ≡ value_error) ⊎ (e ≡ bad_url)

  result_shape :
      (url : Text) (r : Result NetError Finished)
      → IsAllowed url (probe_result lib setting world url r)
  unfolding probe_result build_probe_error_result
  result_shape url (ok f) = (refl, inl (_, _, _, refl, refl, refl, refl, refl))
  result_shape url (raise ssrf_blocked) = (refl, inr (_, refl, refl, refl, refl, refl))
  result_shape url (raise dns_resolution) = (refl, inr (_, refl, refl, refl, refl, refl))
  result_shape url (raise deadline) = (refl, inr (_, refl, refl, refl, refl, refl))
  result_shape url (raise (http_error e)) = (refl, inr (_, refl, refl, refl, refl, detail_listed e))
  result_shape url (raise value_error) = inl refl
  result_shape url (raise bad_url) = inr refl

  -- A probe returns a well-formed result for the URL it was called with, or raises a ValueError or
  -- httpx.InvalidURL; no other exception of the resolver, the client or the deadline leaves it.
  pub probe_well_formed :
      (url : Text)
      → (result : Result NetError PingResultDto) × ((perform_http_probe lib setting world url).1
          ≡ some result)
        × IsAllowed url result
  unfolding perform_http_probe
  probe_well_formed url =
      let (few, (result, e)) =
        loop_bounds (suc setting.max_redirects) url 0 (ground arith) (ground arith) in
      (probe_result lib setting world url result, loop-probe url e, result_shape url result)

  -- The exceptions that the probe task retries.
  abbrev pub is_retried : NetError → Bool
  is_retried deadline = true
  is_retried (http_error connect_timeout) = true
  is_retried (http_error read_timeout) = true
  is_retried (http_error write_timeout) = true
  is_retried (http_error pool_timeout) = true
  is_retried (http_error (connect_error causes)) = not (is_tls_exception lib causes)
  is_retried e = false

  detail_retried :
      (causes : List Cause) (detail : Option String)
      → detail ≡ some (if is_tls_exception lib causes then "tls_error" else "connect_error")
      → is_transient detail ≡ not (is_tls_exception lib causes)
  unfolding is_transient
  detail_retried causes detail h = elim (Bool-cases (is_tls_exception lib causes)) [
    | inl d ↦ let tls : detail ≡ some "tls_error" = ground arith in rw (tls, d)
    | inr d ↦ let plain : detail ≡ some "connect_error" = ground arith in rw (plain, d)
  ]

  -- The result of a failed probe counts as transient exactly for a timeout of the client, for the
  -- probe's own deadline, and for a connection that failed other than in TLS.
  pub retried_details :
      (url : Text) (e : NetError) {dto : PingResultDto}
      → probe_result lib setting world url (raise e) ≡ ok dto
      → is_transient dto.error_detail ≡ is_retried e
  unfolding probe_result build_probe_error_result error_detail_of is_transient
  retried_details url ssrf_blocked h = ground arith
  retried_details url dns_resolution h = ground arith
  retried_details url value_error h = absurd (cc)
  retried_details url bad_url h = absurd (cc)
  retried_details url deadline h = ground arith
  retried_details url (http_error connect_timeout) h = ground arith
  retried_details url (http_error read_timeout) h = ground arith
  retried_details url (http_error write_timeout) h = ground arith
  retried_details url (http_error pool_timeout) h = ground arith
  retried_details url (http_error too_many_redirects) h = ground arith
  retried_details url (http_error request_error) h = ground arith
  retried_details url (http_error (connect_error causes)) {dto} h =
      detail_retried causes dto.error_detail (ground arith)
