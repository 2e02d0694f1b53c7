-- ===== src/Service/Examples.antt =====
-- Tests of the middleware and of the readiness check, and their theorems at concrete inputs.
use ping_gaurd.Prelude.{
  ◌≡◌, ◌↔◌, ◌⊎◌, refl, true, false, Text, codes, Option, none, some, List, [], ◌∷◌, arith, ◌++◌,
}
use ping_gaurd.Models.{Result, ok}
use ping_gaurd.Logging.{LogRecord, configure_logging, log_lines}
use ping_gaurd.Logging.Json.{Entry}
use ping_gaurd.Logging.Reader.{loads}
use ping_gaurd.Logging.Line.{value_under}
use ping_gaurd.Service.Correlation.{log_carries_id}
use ping_gaurd.Service.{
  take_class, match_request_id, remove_header, set_header, calls_return, check_database_readiness,
  check_redis_readiness, HttpReply, request_id_key, request_id_middleware, Call, readiness_check,
  database, redis,
}
use ping_gaurd.Service.RequestId.{IsRequestId, header_values, match_request_id_iff}
use ping_gaurd.Service.Readiness.{is_failed, DatabaseAnswers, RedisAnswers, readiness_exact}

abbrev fresh_id : Text
fresh_id = codes "0f8fad5bd9cb469fa16570867728950e"

short_id : match_request_id (codes "abc-123") ≡ false
unfolding match_request_id take_class
short_id = refl

spaced_id : match_request_id (codes "abc 1234") ≡ false
unfolding match_request_id take_class
spaced_id = refl

-- A last line feed passes.
ended_id : match_request_id (codes "abcd1234" ++ 10 ∷ []) ≡ true
unfolding match_request_id take_class
ended_id = refl

fresh_matches : match_request_id fresh_id ≡ true
unfolding match_request_id take_class
fresh_matches = refl

-- A handler that sends an ID of its own.
abbrev sent_reply : HttpReply
sent_reply = record {
  status_code = 200;
  headers = (request_id_key, codes "other") ∷ (codes "content-type", codes "text/plain") ∷ [];
  content = codes "pong";
}

abbrev handler : Option Text → Result Text HttpReply
handler seen = ok sent_reply

abbrev no_id : Option Text
no_id = none

abbrev final_reply : HttpReply
final_reply = record {
  status_code = 200;
  headers = (request_id_key, codes "abcd1234") ∷ (codes "content-type", codes "text/plain") ∷ [];
  content = codes "pong";
}

served :
    request_id_middleware fresh_id (some (codes "abcd1234")) handler none ≡ (ok final_reply, none)
unfolding request_id_middleware match_request_id take_class set_header remove_header
served = refl

match_request_id_iff_example : (match_request_id (codes "abcd1234") ≡ true) ↔ (
    IsRequestId (codes "abcd1234")
    ⊎ ((id : Text) × (IsRequestId id × (codes "abcd1234" ≡ id ++ 10 ∷ []))))
match_request_id_iff_example = match_request_id_iff (codes "abcd1234")

abbrev quick : Call
quick = record { microseconds = 3_000; returns = true }

abbrev slow : Call
slow = record { microseconds = 2_000_000; returns = true }

down_lists_redis : (readiness_check quick quick slow quick).failed ≡ redis ∷ []
unfolding readiness_check check_database_readiness check_redis_readiness calls_return
down_lists_redis = refl

readiness_exact_example :
    let report = readiness_check quick quick slow quick in
    ((report.status_code ≡ 200) ↔ (DatabaseAnswers quick × RedisAnswers quick slow quick))
    × (((report.status_code ≡ 200) ⊎ (report.status_code ≡ 503))
        × (((is_failed database report.failed ≡ false) ↔ DatabaseAnswers quick)
            × ((is_failed redis report.failed ≡ false) ↔ RedisAnswers quick slow quick)))
readiness_exact_example = readiness_exact quick quick slow quick

abbrev logged : LogRecord
logged = record {
  levelno = 20;
  levelname = codes "INFO";
  name = codes "app.main";
  message = codes "created";
  request_id = none;
  exc_info = none;
}

log_carries_id_example :
    (id : Text) × ((header_values request_id_key final_reply.headers ≡ id ∷ [])
      × ((sent : HttpReply) × ((handler (some id) ≡ ok sent)
            × ((line : Text) × ((log_lines
                      (λ level. 20)
                      (codes "2026-09-22")
                      (configure_logging (λ s. s) (codes "INFO") true none)
                      (some id)
                      logged
                    ≡ line ∷ [])
                  × ((entries : List Entry) × ((loads line ≡ some entries)
                        × (value_under (codes "request_id") entries ≡ some (some id)))))))))
log_carries_id_example =
    log_carries_id (λ s. s) (codes "INFO") (λ level. 20) (codes "2026-09-22") fresh_id
      (some (codes "abcd1234")) handler no_id no_id final_reply logged fresh_matches served
      (omega arith) (omega arith) refl
