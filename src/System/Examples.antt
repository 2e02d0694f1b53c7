-- ===== src/System/Examples.antt =====
-- The theorems on the whole program at a run of six transactions.
use ping_gaurd.Prelude.{refl, true, false, Text, none, some, codes, List, [], ◌∷◌, All}
use ping_gaurd.Enums.{PingOutcome}
use ping_gaurd.Schemas.{
  validate_create, validate_update, validate_keep_alive_rules, validate_relative_path,
  validate_url_scheme_and_safety,
}
use ping_gaurd.Api.Examples.{wanted, switch_off, no_addresses}
use ping_gaurd.System.{Action, create, update, claim, ping, prune, run, no_rows}
use ping_gaurd.System.Reach.{IsAdmitted}
use ping_gaurd.System.Catalog.{replay, empty}
use ping_gaurd.System.Represents.{Represents}
use ping_gaurd.System.Refine.{run-Represents}
use ping_gaurd.Tasks.Probe.{PingResultDto, ProbeCall, returned, Request}
use ping_gaurd.Tasks.Sweep.{Outside, keep_alive_task}

abbrev up_again : PingResultDto
up_again = record {
  outcome = PingOutcome.up;
  status_code = some 200;
  latency_ms = some 1200;
  error_detail = none;
  original_url = codes "https://shop.example/";
  final_url = none;
}

abbrev probe : Text → ProbeCall
probe url = returned up_again

abbrev first_try : Request
first_try = record { retries = 0; max_retries = 3; now = 5000000; now_after_limit = 9000000 }

-- Two monitors, a batch of keep-alives, a check that read the database before the second monitor was
-- there, keep-alive switched off for the first, and pruning.
abbrev history : List Action
history =
    create 1000000 wanted
    ∷ create 2000000 wanted
    ∷ claim keep_alive_task 3000000 (λ id. false) 500
    ∷ ping probe first_try 1 (run 100 (create 1000000 wanted ∷ []) no_rows)
    ∷ update 6000000 1 switch_off
    ∷ prune 4000000 10000
    ∷ []

admitted : All (IsAdmitted no_addresses 100) history
unfolding validate_create validate_update validate_keep_alive_rules validate_relative_path
    validate_url_scheme_and_safety
admitted = (refl, (refl, (tt, (tt, (refl, (tt, tt))))))

abbrev steady : Outside
steady = record { locked = λ batch i. false; accepts = λ call. true; recovers = true }

run-Represents_example : Represents (run 100 history no_rows) (replay 100 history empty)
run-Represents_example = run-Represents 100 no_addresses history admitted
