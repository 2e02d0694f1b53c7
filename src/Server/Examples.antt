-- ===== src/Server/Examples.antt =====
-- The theorems on the HTTP interface at concrete runs.
use mathlib.Core.Option
use ping_gaurd.Prelude.{
  ℕ, ◌+◌, ◌-◌, ◌≡◌, ◌↔◌, refl, Bool, Option, true, false, not, Text, codes, none, some, List, [],
  ◌∷◌, All, select, if◌then◌else◌,
}
use ping_gaurd.Api.{not_found, new_monitor, read_monitor}
use ping_gaurd.Api.Examples.{wanted, switch_off, no_addresses}
use ping_gaurd.Api.Overlap.{create_over}
use ping_gaurd.Ratelimit.{Caller, Windows, PipelineReply, in_memory_hit}
use ping_gaurd.Routes.{
  status_of, HttpCall, Route, reading, writing, get_one, post_monitor, patch_one, delete_one,
  post_check, failed, success, monitor_content,
}
use ping_gaurd.Server.{
  Server, ServerEvent, arrive, complete, cancel, worker, serve, serve_read, handler_answer,
  run_server,
}
use ping_gaurd.Server.Safe.{IsService, server-IsStored}
use ping_gaurd.Server.Strangers.{has_key, is_silent, strangers_silent, unauthorized_iff}
use ping_gaurd.Server.ReadBack.{written_id, is_delete, read_your_writes}
use ping_gaurd.Server.Throttle.{serve_redis, exceeds, throttled_iff}
use ping_gaurd.System.{no_rows, claim}
use ping_gaurd.System.Tasks.{is_work}
use ping_gaurd.System.Stored.{IsStored}
use ping_gaurd.System.Overlap.{create_handler, commit_handler, idle, pool_connections}
use ping_gaurd.System.Overlap.Safe.{IsSafeRow}
use ping_gaurd.Tasks.Sweep.{keep_alive_task}

-- A limiter in the process, as the tests use it.
abbrev minute_hit : (limit now : ℕ) → Text → Windows → Option (Bool × ℕ) × Windows
minute_hit limit now key windows =
    let (answer, after) = in_memory_hit key limit 60 now windows in (some answer, after)

abbrev secret : Text
secret = codes "a-key-of-many-characters-0"

abbrev owner : Caller
owner = record { api_key = some secret; client_host = none }

abbrev stranger : Caller
stranger = record { api_key = none; client_host = some (codes "203.0.113.9") }

abbrev call : Caller → ℕ → Route → ServerEvent
call caller now route =
    arrive (record { caller = caller; now = now; accepts = true; route = route })

-- Two creates that overlap, one by a stranger, a check, an update and a delete.
abbrev traffic : List ServerEvent
traffic =
    call owner 1000000 (writing (post_monitor wanted))
    ∷ call stranger 1000001 (writing (post_monitor wanted))
    ∷ call owner 1000002 (writing (post_monitor wanted))
    ∷ complete 1
    ∷ complete 0
    ∷ worker (claim keep_alive_task 2000000 (λ id. false) 500)
    ∷ call owner 2000001 (writing (post_check 2))
    ∷ call owner 2000002 (reading (get_one 1))
    ∷ call owner 2000003 (writing (patch_one 1 switch_off))
    ∷ call owner 2000004 (writing (delete_one 1))
    ∷ complete 1
    ∷ cancel 0
    ∷ []

abbrev fresh_server : Server Windows
fresh_server = record { limiter = []; core = idle no_rows; queue = [] }

abbrev digest : Text → Text
digest t = t

services : All IsService traffic
unfolding is_work
services = (tt, (tt, (tt, (tt, (tt, (refl, (tt, (tt, (tt, (tt, (tt, (tt, tt))))))))))))

server-IsStored_example :
    IsStored IsSafeRow
      (100 + pool_connections - 1)
      (run_server no_addresses 100 pool_connections secret digest
        (minute_hit 60)
        traffic
        fresh_server).core.db
server-IsStored_example =
    server-IsStored no_addresses 100 pool_connections secret digest (minute_hit 60) traffic []
      services

strangers_silent_example :
    run_server no_addresses 100 pool_connections secret digest (minute_hit 60) traffic fresh_server
    ≡ run_server no_addresses 100 pool_connections secret digest
        (minute_hit 60)
        (select (λ e. not (is_silent secret e)) traffic)
        fresh_server
strangers_silent_example =
    strangers_silent no_addresses 100 pool_connections secret digest (minute_hit 60) traffic
      fresh_server

abbrev uninvited : HttpCall
uninvited = record {
  caller = stranger;
  now = 1000000;
  accepts = true;
  route = writing (delete_one 1);
}

unauthorized_iff_example :
    (Option.map
        (status_of uninvited.route)
        (serve no_addresses 100 pool_connections secret digest
          (minute_hit 60)
          uninvited
          fresh_server).0
      ≡ some 401)
    ↔ (has_key secret uninvited.caller ≡ false)
unauthorized_iff_example =
    unauthorized_iff no_addresses 100 pool_connections secret digest (minute_hit 60) uninvited
      fresh_server refl

read_your_writes_example :
    (serve_read
      (get_one (written_id (create_handler 1000000 wanted) no_rows))
      (commit_handler 100 (create_handler 1000000 wanted) no_rows no_rows)).0
    ≡ (if is_delete (create_handler 1000000 wanted)
        then failed not_found
        else success (monitor_content (read_monitor (new_monitor 1 1000000 wanted))))
unfolding handler_answer create_over
read_your_writes_example =
    read_your_writes 100 (create_handler 1000000 wanted) no_rows no_rows tt refl

-- Redis counted the 61st write of the minute.
abbrev sixty_one : (now : ℕ) → Text → PipelineReply
sixty_one now key = some (61, some 12)

abbrev one_more : HttpCall
one_more = record {
  caller = owner;
  now = 1000000;
  accepts = true;
  route = writing (post_monitor wanted);
}

abbrev nothing_yet : Server (Unit {0})
nothing_yet = record { limiter = tt; core = idle no_rows; queue = [] }

throttled_iff_example :
    let served =
      serve_redis no_addresses 100 pool_connections 60 secret digest sixty_one
        (λ now key. true)
        one_more
        nothing_yet in
    let over =
      exceeds no_addresses 100 pool_connections 60 secret digest sixty_one
        (λ now key. true)
        one_more in
    ((Option.map (status_of one_more.route) served.0 ≡ some 429) ↔ (over ≡ true))
    × (over ≡ true → served.1 ≡ nothing_yet)
throttled_iff_example =
    throttled_iff no_addresses 100 pool_connections 60 secret digest sixty_one (λ now key. true)
      one_more nothing_yet refl
