-- ===== src/Net/Probe/Loop.antt =====
-- The steps of the probe's loop, and induction on its run.
use ping_gaurd.Prelude.{
  ℕ, zero, suc, ◌≡◌, refl, sym, subst, ◌⊎◌, inl, inr, Text, Option, none, some, List, [], ◌∷◌,
  arith,
}
use ping_gaurd.Models.{Result-cases, Result, ok, raise}
use ping_gaurd.Net.Http.{HttpRequest}
use ping_gaurd.Net.Resolve.{UrlLibrary, NetError}
use ping_gaurd.Net.Probe.{
  Setting, World, Finished, Next, finish, follow, hop_request, hop_reply, probe_loop,
}

pub Next-cases : (n : Next) → ((f : Finished) × (n ≡ finish f)) ⊎ ((url : Text) × (n ≡ follow url))
Next-cases (finish f) = inl (f, refl)
Next-cases (follow url) = inr (url, refl)

abbrev pub Run : Type 0
Run = List HttpRequest × Option (Result NetError Finished)

module _ (lib : UrlLibrary) (setting : Setting) (world : World) where
  abbrev request_at : Text → ℕ → Result NetError HttpRequest
  request_at = hop_request lib setting world

  abbrev reply_at : Text → ℕ → HttpRequest → Result NetError Next
  reply_at url c r = hop_reply lib setting world url c (world.send c r)

  abbrev run_of : ℕ → Text → ℕ → Run
  run_of = probe_loop lib setting world

  loop_rejects :
      (fuel : ℕ) (url : Text) (c : ℕ) {e : NetError}
      → request_at url c ≡ raise e
      → run_of (suc fuel) url c ≡ ([], some (raise e))
  unfolding probe_loop
  loop_rejects fuel url c h = ground arith

  loop_fails :
      (fuel : ℕ) (url : Text) (c : ℕ) {r : HttpRequest} {e : NetError}
      → request_at url c ≡ ok r
      → reply_at url c r ≡ raise e
      → run_of (suc fuel) url c ≡ (r ∷ [], some (raise e))
  unfolding probe_loop
  loop_fails fuel url c h k = ground arith

  loop_finishes :
      (fuel : ℕ) (url : Text) (c : ℕ) {r : HttpRequest} {f : Finished}
      → request_at url c ≡ ok r
      → reply_at url c r ≡ ok (finish f)
      → run_of (suc fuel) url c ≡ (r ∷ [], some (ok f))
  unfolding probe_loop
  loop_finishes fuel url c h k = ground arith

  loop_follows :
      (fuel : ℕ) (url : Text) (c : ℕ) {r : HttpRequest} {next : Text}
      → request_at url c ≡ ok r
      → reply_at url c r ≡ ok (follow next)
      → run_of (suc fuel) url c ≡ (let rest = run_of fuel next (suc c) in (r ∷ rest.0, rest.1))
  unfolding probe_loop
  loop_follows fuel url c h k = ground arith

  -- Induction on the run: the case of a hop has what the hop came to.
  pub loop_ind :
      (P : ℕ → Text → ℕ → Run → Type 0)
      → ((url : Text) (c : ℕ) → P 0 url c ([], none))
      → ((fuel : ℕ) (url : Text) (c : ℕ) (e : NetError)
          → request_at url c ≡ raise e
          → P (suc fuel) url c ([], some (raise e)))
      → ((fuel : ℕ) (url : Text) (c : ℕ) (r : HttpRequest) (e : NetError)
          → request_at url c ≡ ok r
          → reply_at url c r ≡ raise e
          → P (suc fuel) url c (r ∷ [], some (raise e)))
      → ((fuel : ℕ) (url : Text) (c : ℕ) (r : HttpRequest) (f : Finished)
          → request_at url c ≡ ok r
          → reply_at url c r ≡ ok (finish f)
          → P (suc fuel) url c (r ∷ [], some (ok f)))
      → ((fuel : ℕ) (url : Text) (c : ℕ) (r : HttpRequest) (next : Text) (rest : Run)
          → request_at url c ≡ ok r
          → reply_at url c r ≡ ok (follow next)
          → P fuel next (suc c) rest
          → P (suc fuel) url c (r ∷ rest.0, rest.1))
      → (fuel : ℕ) (url : Text) (c : ℕ) → P fuel url c (run_of fuel url c)
  unfolding probe_loop
  loop_ind P empty rejects fails finishes follows zero url c = empty url c
  loop_ind P empty rejects fails finishes follows (suc fuel) url c =
      elim (Result-cases (request_at url c)) [
        | inr (e, d) ↦
            subst (P (suc fuel) url c) (sym (loop_rejects fuel url c d)) (rejects fuel url c e d)
        | inl (r, d) ↦ elim (Result-cases (reply_at url c r)) [
          | inr (e, k) ↦
              subst (P (suc fuel) url c) (sym (loop_fails fuel url c d k))
                (fails fuel url c r e d k)
          | inl (next, k) ↦ elim (Next-cases next) [
            | inl (f, n) ↦
                let done : reply_at url c r ≡ ok (finish f) = cc in
                subst (P (suc fuel) url c) (sym (loop_finishes fuel url c d done))
                  (finishes fuel url c r f d done)
            | inr (u, n) ↦
                let on : reply_at url c r ≡ ok (follow u) = cc in
                let rest = loop_ind P empty rejects fails finishes follows fuel u (suc c) in
                subst (P (suc fuel) url c) (sym (loop_follows fuel url c d on))
                  (follows fuel url c r u _ d on rest)
          ]
        ]
      ]
