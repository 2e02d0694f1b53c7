-- ===== src/Service/Readiness.antt =====
-- The readiness check.
use ping_gaurd.Prelude.{◌+◌, ◌<◌, ◌≡◌, ◌↔◌, ◌⊎◌, ◌||◌, Bool, true, false, List, [], ◌∷◌, arith}
use ping_gaurd.Service.{
  Call, calls_return, check_database_readiness, check_redis_readiness, readiness_check, Service,
  database, redis,
}

abbrev service_eq : Service → Service → Bool
service_eq database database = true
service_eq redis redis = true
service_eq _ _ = false

abbrev pub is_failed : Service → List Service → Bool
is_failed s [] = false
is_failed s (x ∷ xs) = service_eq s x || is_failed s xs

-- The database answers the query, within two seconds.
abbrev pub DatabaseAnswers : Call → Type 0
DatabaseAnswers execute = (execute.returns ≡ true) × (execute.microseconds < 2_000_000)

-- The client is made, answers the PING and closes, all within two seconds.
abbrev pub RedisAnswers : (from_url ping aclose : Call) → Type 0
RedisAnswers from_url ping aclose =
    ((from_url.returns ≡ true) × ((ping.returns ≡ true) × (aclose.returns ≡ true)))
    × (from_url.microseconds + ping.microseconds + aclose.microseconds < 2_000_000)

-- The readiness check answers 200 if and only if the database and Redis both answer in time, 503
-- otherwise; it lists the database as failed if and only if that does not answer, and Redis likewise.
pub readiness_exact :
    (execute from_url ping aclose : Call)
    → let report = readiness_check execute from_url ping aclose in
      ((report.status_code ≡ 200) ↔ (DatabaseAnswers execute × RedisAnswers from_url ping aclose))
      × (((report.status_code ≡ 200) ⊎ (report.status_code ≡ 503))
          × (((is_failed database report.failed ≡ false) ↔ DatabaseAnswers execute)
              × ((is_failed redis report.failed ≡ false) ↔ RedisAnswers from_url ping aclose)))
unfolding readiness_check check_database_readiness check_redis_readiness calls_return
readiness_exact execute from_url ping aclose = ground arith
