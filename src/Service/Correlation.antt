-- ===== src/Service/Correlation.antt =====
-- The log's lines of a request.
use ping_gaurd.Prelude.{
  ℕ, ◌<◌, ◌≡◌, refl, sym, subst, ap, ◌∙◌, inl, inr, true, Text, codes, Option, none, some, List, [],
  ◌∷◌, All, All-append, leb, arith,
}
use ping_gaurd.Models.{Result, ok}
use ping_gaurd.Logging.{
  LogRecord, configure_logging, log_lines, format_json, log_entry, filter_request_id, write_record,
}
use ping_gaurd.Logging.Json.{Entry}
use ping_gaurd.Logging.Reader.{loads}
use ping_gaurd.Logging.Strings.{IsScalar}
use ping_gaurd.Logging.Line.{value_under, IsScalarRecord, loads-format_json}
use ping_gaurd.Logging.Routing.{default_handler, log_lines_once}
use ping_gaurd.Service.{
  is_id_char, all_chars, match_request_id, HttpReply, request_id_key, request_id_middleware,
}
use ping_gaurd.Service.RequestId.{header_values, match_request_id_iff, middleware_correlates}

id_char-IsScalar : (s : Text) → all_chars is_id_char s ≡ true → All IsScalar s
id_char-IsScalar [] h = tt
id_char-IsScalar (c ∷ cs) h =
    let small : c < 0xd800 = ground arith in
    let later : all_chars is_id_char cs ≡ true = ground arith in
    (inl small, id_char-IsScalar cs later)

match_request_id-IsScalar : (s : Text) → match_request_id s ≡ true → All IsScalar s
match_request_id-IsScalar s h = elim ((match_request_id_iff s).0 h) [
  | inl id ↦ id_char-IsScalar s id.0
  | inr (id, (is, e)) ↦
      subst (All IsScalar) (sym e)
        (All-append IsScalar id (10 ∷ []) (id_char-IsScalar id is.0) (omega arith, tt))
]

write_record_json :
    (now : Text) (id : Text) (r : LogRecord)
    → write_record now (some id) r (default_handler true none)
      ≡ format_json now (record r { request_id = some (some id) })
unfolding write_record filter_request_id
write_record_json now id r = refl

value_under-log_entry :
    (now : Text) (id : Text) (r : LogRecord)
    → value_under (codes "request_id") (log_entry now (record r { request_id = some (some id) }))
      ≡ some (some id)
unfolding log_entry
value_under-log_entry now id r = refl

-- A request that succeeds, with logs in JSON: its response has one request ID, what comes after the
-- middleware sees that ID, and every record logged there whose level reaches the configured one gives
-- one line, which a reader of JSON reads, with that ID under "request_id"; for texts without surrogates.
pub log_carries_id :
    {E : Type 0} (upper : Text → Text) (level : Text) (number : Text → ℕ) (now : Text)
    (fresh : Text) (incoming : Option Text) (call_next : Option Text → Result E HttpReply)
    (before after : Option Text) (reply : HttpReply) (r : LogRecord)
    → match_request_id fresh ≡ true
    → request_id_middleware fresh incoming call_next before ≡ (ok reply, after)
    → All IsScalar now
    → IsScalarRecord r
    → leb (number (upper level)) r.levelno ≡ true
    → (id : Text) × ((header_values request_id_key reply.headers ≡ id ∷ [])
        × ((sent : HttpReply) × ((call_next (some id) ≡ ok sent)
              × ((line : Text) × ((log_lines number now
                        (configure_logging upper level true none)
                        (some id)
                        r
                      ≡ line ∷ [])
                    × ((entries : List Entry) × ((loads line ≡ some entries)
                          × (value_under (codes "request_id") entries ≡ some (some id)))))))))
log_carries_id upper level number now fresh incoming call_next before after reply r h e clock scalar
      reached =
    let (id, (is_id, (matches, (reset, (sent, (called, (own, others))))))) =
      middleware_correlates fresh incoming call_next before after reply h e in
    let stamped : LogRecord = record r { request_id = some (some id) } in
    let (names, (logger, (message, (old_id, trace)))) = scalar in
    let readable : IsScalarRecord stamped =
      (names, (logger, (message, (match_request_id-IsScalar id matches, trace)))) in
    let once : log_lines number now (configure_logging upper level true none) (some id) r
        ≡ write_record now (some id) r (default_handler true none) ∷ [] =
      log_lines_once upper level true none number now (some id) r ∙ rw reached refl in
    (
      id,
      (
        own,
        (
          sent,
          (
            called,
            (
              format_json now stamped,
              (
                once ∙ ap (λ l. l ∷ []) (write_record_json now id r),
                (
                  log_entry now stamped,
                  (loads-format_json now stamped clock readable, value_under-log_entry now id r),
                ),
              ),
            ),
          ),
        ),
      ),
    )
