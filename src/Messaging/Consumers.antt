-- ===== src/Messaging/Consumers.antt =====
-- After a reconnection every consumer that was ever registered consumes again.
use kltn_high_concurrency_co.Prelude.{
  ℕ, suc, ◌+◌, ◌≤◌, ◌≡◌, ◌⊎◌, ◌∙◌, refl, sym, ap, subst, inl, inr, List, [], ◌∷◌, ◌++◌, length,
  arith, Option-cases,
}
use mathlib.Core.List.{append_assoc, append-nil}
use kltn_high_concurrency_co.Messaging.Connection.{
  QueueName, Link, connecting, Service, on_close, on_timer, connect_step, resume, consume,
}
use kltn_high_concurrency_co.Messaging.Attempts.{
  Happening, consumes, closes, shuts_down, fires, resumes, happen, run, goes_on, IsBack, IsCaught,
  connecting-Ends,
}

-- `ttl_ms` is the lifetime of the delay queue.
module _ (L : Link) (ttl_ms : ℕ) where
  -- the queues that a history registers, in order
  abbrev pub registered : List (Happening L ttl_ms) → List QueueName
  registered [] = []
  registered (consumes q ∷ hs) = q ∷ registered hs
  registered (_ ∷ hs) = registered hs

  registered-step :
      (h : Happening L ttl_ms) (hs : List (Happening L ttl_ms))
      → registered (h ∷ []) ++ registered hs ≡ registered (h ∷ hs)
  registered-step (consumes q) hs = refl
  registered-step (closes link) hs = refl
  registered-step shuts_down hs = refl
  registered-step fires hs = refl
  registered-step (resumes n) hs = refl

  happen-consumers :
      (h : Happening L ttl_ms) (m : Service L)
      → (happen L ttl_ms h m).consumers ≡ m.consumers ++ registered (h ∷ [])
  unfolding consume on_close on_timer resume connect_step
  happen-consumers (consumes q) m = elim (Option-cases (L.consume q m.link)) [
    | inl failed ↦ rw (happen, consume, failed) refl
    | inr (t, did) ↦ rw (happen, consume, did) refl
  ]
  happen-consumers (closes link) m = ground (arith, append-nil m.consumers)
  happen-consumers shuts_down m = sym (append-nil m.consumers)
  happen-consumers fires m = ground (arith, append-nil m.consumers)
  happen-consumers (resumes n) m = ground (arith, append-nil m.consumers)

  run-consumers :
      (hs : List (Happening L ttl_ms)) (m : Service L)
      → (run L ttl_ms hs m).consumers ≡ m.consumers ++ registered hs
  run-consumers [] m = sym (append-nil m.consumers)
  run-consumers (h ∷ hs) m =
      run-consumers hs (happen L ttl_ms h m)
      ∙ ap (λ xs. xs ++ registered hs) (happen-consumers h m)
      ∙ append_assoc m.consumers (registered (h ∷ [])) (registered hs)
      ∙ ap (λ xs. m.consumers ++ xs) (registered-step h hs)

  -- After any history of registrations, done or failed, of losses of connections, of timers, of a shutdown and of runs
  -- of `connect` that go on in any order, with every client library: when a scheduled timer fires and its run of
  -- `connect` is not interrupted, then after at most six calls and one for each consumer either the service
  -- consumes from exactly the queues that were ever registered, in the order of registration, with one
  -- timer less, or a call of the library failed and as many timers are scheduled as before; the other
  -- runs of `connect` stand as they were.
  pub run-fires :
      (hs : List (Happening L ttl_ms)) (m : Service L) (n : ℕ)
      → (run L ttl_ms hs m).timers ≡ suc n
      → (k : ℕ) × (k ≤ 6 + (length (m.consumers ++ registered hs)))
        × (IsBack L ttl_ms
              (m.consumers ++ registered hs)
              n
              (run L ttl_ms hs m).attempts
              (run L ttl_ms (fires ∷ goes_on L ttl_ms k) (run L ttl_ms hs m))
            ⊎ IsCaught L ttl_ms n
                (run L ttl_ms hs m).attempts
                (run L ttl_ms (fires ∷ goes_on L ttl_ms k) (run L ttl_ms hs m)))
  unfolding on_timer
  run-fires hs m n scheduled =
      let s = run L ttl_ms hs m in
      let started : Service L = record s { timers = n } in
      let same : on_timer L s ≡ record started { attempts = connecting ∷ s.attempts } =
        rw (on_timer, scheduled) refl in
      let (k, few, end) = connecting-Ends L ttl_ms started s.link in
      let all = run-consumers hs m in
      (
        k,
        omega (arith, few, ap length all),
        subst
            (λ e.
              IsBack L ttl_ms (m.consumers ++ registered hs) n s.attempts
                (run L ttl_ms (goes_on L ttl_ms k) e)
              ⊎ IsCaught L ttl_ms n s.attempts (run L ttl_ms (goes_on L ttl_ms k) e))
            (sym same)
            (subst
              (λ queues.
                IsBack L ttl_ms queues n s.attempts (
                  run L ttl_ms (goes_on L ttl_ms k)
                    (record started { attempts = connecting ∷ s.attempts }))
                ⊎ IsCaught L ttl_ms n s.attempts (
                    run L ttl_ms (goes_on L ttl_ms k)
                      (record started { attempts = connecting ∷ s.attempts })))
              all end),
      )
