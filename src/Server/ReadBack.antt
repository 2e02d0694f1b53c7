-- ===== src/Server/ReadBack.antt =====
-- What a reader gets after a handler has answered.
use ping_gaurd.Prelude.{
  ℕ, ◌<◌, ◌≡◌, refl, Bool, true, false, some, inl, inr, List, [], ◌∷◌, ◌++◌, All, arith, leb,
  length, ==_refl, Bool-cases, Option-cases, if◌then◌else◌,
}
use ping_gaurd.Models.{Monitor, Database, Result-cases, find_monitor}
use ping_gaurd.Models.Rows.{find_monitor-update, find_monitor-delete}
use ping_gaurd.Schemas.{MonitorCreate, MonitorUpdate}
use ping_gaurd.Api.{not_found, new_monitor, get_monitor, updated_row}
use ping_gaurd.Api.Overlap.{write_changed, create_over, update_over, delete_over}
use ping_gaurd.Routes.{Content, get_one, failed, success}
use ping_gaurd.Server.{serve_read, handler_answer}
use ping_gaurd.System.Overlap.{
  WriteHandler, create_handler, update_handler, delete_handler, commit_handler,
}

-- The monitor that a handler writes.
abbrev pub written_id : WriteHandler → Database → ℕ
written_id (create_handler now payload) db = db.next_monitor_id
written_id (update_handler now id payload) db = id
written_id (delete_handler id) db = id

abbrev pub is_delete : WriteHandler → Bool
is_delete (delete_handler id) = true
is_delete _ = false

find_monitor-snoc :
    (ms : List Monitor) (m : Monitor)
    → All (λ x. x.id < m.id) ms
    → find_monitor m.id (ms ++ m ∷ []) ≡ some m
unfolding find_monitor
find_monitor-snoc [] m h = ground (arith, ==_refl m.id)
find_monitor-snoc (x ∷ ms) m h = ground (arith, find_monitor-snoc ms m h.1)

new_monitor_id : (id now : ℕ) (payload : MonitorCreate) → (new_monitor id now payload).id ≡ id
unfolding new_monitor
new_monitor_id id now payload = refl

module _ (max_monitors : ℕ) where
  create_read :
      (now : ℕ) (payload : MonitorCreate) (seen db : Database) {c : Content}
      → All (λ m. m.id < db.next_monitor_id) db.monitors
      → handler_answer max_monitors (create_handler now payload) seen db ≡ success c
      → (serve_read
          (get_one db.next_monitor_id)
          (commit_handler max_monitors (create_handler now payload) seen db)).0
        ≡ success c
  unfolding handler_answer serve_read commit_handler create_over get_monitor new_monitor
  create_read now payload seen db fresh h =
      elim (Bool-cases (leb max_monitors (length seen.monitors))) [
        | inl full ↦ absurd (ground arith)
        | inr room ↦
            let created = new_monitor db.next_monitor_id now payload in
            ground (arith, find_monitor-snoc db.monitors created fresh)
      ]

  update_read :
      (now id : ℕ) (payload : MonitorUpdate) (seen db : Database) {c : Content}
      → handler_answer max_monitors (update_handler now id payload) seen db ≡ success c
      → (serve_read
          (get_one id)
          (commit_handler max_monitors (update_handler now id payload) seen db)).0
        ≡ success c
  unfolding handler_answer serve_read commit_handler update_over get_monitor write_changed
  update_read now id payload seen db {c} h = elim (Option-cases (find_monitor id seen.monitors)) [
    | inl missing ↦ absurd (ground arith)
    | inr (loaded, found) ↦ elim (Result-cases (updated_row now loaded payload)) [
      | inr (e, refused) ↦ absurd (ground arith)
      | inl (row, updated) ↦ elim (Option-cases (find_monitor id db.monitors)) [
        | inl gone ↦ absurd (ground arith)
        | inr (current, there) ↦
            let f = write_changed loaded row in
            ground (arith, find_monitor-update f (λ x. refl) id id db.monitors, ==_refl id)
      ]
    ]
  ]

  delete_read :
      (id : ℕ) (seen db : Database) {c : Content}
      → handler_answer max_monitors (delete_handler id) seen db ≡ success c
      → (serve_read (get_one id) (commit_handler max_monitors (delete_handler id) seen db)).0
        ≡ failed not_found
  unfolding handler_answer serve_read commit_handler delete_over get_monitor
  delete_read id seen db h = elim (Option-cases (find_monitor id seen.monitors)) [
    | inl missing ↦ absurd (ground arith)
    | inr (m, found) ↦ ground (arith, find_monitor-delete id id db.monitors, ==_refl id)
  ]

  -- Whatever a handler had read before others committed: after it has answered with success, and before
  -- the next commit, a read of the monitor that it wrote gets the content of that answer, or 404 after a
  -- delete. Keys are below their sequence.
  pub read_your_writes :
      (h : WriteHandler) (seen db : Database) {c : Content}
      → All (λ m. m.id < db.next_monitor_id) db.monitors
      → handler_answer max_monitors h seen db ≡ success c
      → (serve_read (get_one (written_id h db)) (commit_handler max_monitors h seen db)).0
        ≡ (if is_delete h then failed not_found else success c)
  read_your_writes (create_handler now payload) seen db fresh h =
      create_read now payload seen db fresh h
  read_your_writes (update_handler now id payload) seen db fresh h =
      update_read now id payload seen db h
  read_your_writes (delete_handler id) seen db fresh h = delete_read id seen db h
