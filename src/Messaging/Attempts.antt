-- ===== src/Messaging/Attempts.antt =====
-- A run of `connect` that is not interrupted comes to an end.
use kltn_high_concurrency_co.Prelude.{
  ℕ, zero, suc, ◌≤◌, ◌≡◌, ◌⊎◌, ◌∙◌, refl, sym, ap, subst, inl, inr, Option, none, some, List, [],
  ◌∷◌, ◌++◌, length, arith, Option-cases,
}
use mathlib.Core.List.{append_assoc}
use kltn_high_concurrency_co.Messaging.{delay_exchange, work_exchange}
use kltn_high_concurrency_co.Messaging.Connection.{
  QueueName, fanout, direct, Link, Stage, connecting, opening, delay_exchange_stage,
  work_exchange_stage, delay_queue_stage, binding_stage, registering, get_elem?, next_stage,
  awaited, Service, on_close, on_timer, connect_step, resume, consume, on_module_destroy,
}

first : List QueueName → Option QueueName
first [] = none
first (q ∷ queues) = some q

get_elem-append :
    (before rest : List QueueName) → get_elem? (length before) (before ++ rest) ≡ first rest
unfolding first
get_elem-append [] [] = refl
get_elem-append [] (q ∷ rest) = refl
get_elem-append (x ∷ before) rest = get_elem-append before rest

length-snoc :
    (before : List QueueName) (q : QueueName) → length (before ++ q ∷ []) ≡ suc (length before)
length-snoc [] q = refl
length-snoc (x ∷ before) q = ap suc (length-snoc before q)

abbrev stage_at : ℕ → Option QueueName → Option Stage
stage_at i found = elim found [ none ↦ none | some q ↦ some (registering i q) ]

following :
    (consumers before : List QueueName) (q : QueueName) (rest : List QueueName)
    → consumers ≡ before ++ (q ∷ rest)
    → get_elem? (suc (length before)) consumers ≡ first rest
following consumers before q rest all =
    ap (get_elem? (suc (length before))) (all ∙ sym (append_assoc before (q ∷ []) rest))
    ∙ ap (λ i. get_elem? i ((before ++ q ∷ []) ++ rest)) (sym (length-snoc before q))
    ∙ get_elem-append (before ++ q ∷ []) rest

List-cases :
    (queues : List QueueName)
    → (queues ≡ []) ⊎ ((q : QueueName) × (rest : List QueueName) × (queues ≡ q ∷ rest))
List-cases [] = inl refl
List-cases (q ∷ rest) = inr (q, rest, refl)

-- `ttl_ms` is the lifetime of the delay queue.
module _ (L : Link) (ttl_ms : ℕ) where
  -- What happens to the service; any run of `connect` may be the next to go on.
  pub data Happening : Type 0 where
    consumes : QueueName → Happening
    closes : L.State → Happening
    shuts_down fires : Happening
    resumes : ℕ → Happening

  abbrev pub happen : Happening → Service L → Service L
  happen (consumes q) m = (consume L q m).1
  happen (closes link) m = on_close L link m
  happen shuts_down m = on_module_destroy L m
  happen fires m = on_timer L m
  happen (resumes n) m = resume L ttl_ms n m

  abbrev pub run : List Happening → Service L → Service L
  run [] m = m
  run (h ∷ hs) m = run hs (happen h m)

  -- The run of `connect` that was started last goes on `n` times.
  abbrev pub goes_on : ℕ → List Happening
  goes_on zero = []
  goes_on (suc n) = resumes 0 ∷ goes_on n

  -- The present channel consumes from all queues, one timer is used up, and the run of `connect` is over.
  abbrev pub IsBack : List QueueName → ℕ → List Stage → Service L → Type 0
  IsBack queues n others e = (L.consuming e.link ≡ queues) × (e.timers ≡ n) × (e.attempts ≡ others)

  -- A call of the library failed, and another reconnection is scheduled.
  abbrev pub IsCaught : ℕ → List Stage → Service L → Type 0
  IsCaught n others e =
      ((stage : Stage) × (awaited L ttl_ms stage e.link ≡ none))
      × (e.timers ≡ suc n)
      × (e.attempts ≡ others)

  module _ (m : Service L) where
    -- the service with a run of `connect` at a stage
    abbrev during : Stage → L.State → Service L
    during stage s = record m { attempts = stage ∷ m.attempts; link = s }

    abbrev pub Ends : ℕ → Stage → L.State → Type 0
    Ends n stage s =
        (k : ℕ) × (k ≤ n)
        × (IsBack m.consumers m.timers m.attempts (run (goes_on k) (during stage s))
            ⊎ IsCaught m.timers m.attempts (run (goes_on k) (during stage s)))

    failed-Ends :
        (n : ℕ) (stage : Stage) (s : L.State)
        → awaited L ttl_ms stage s ≡ none
        → Ends (suc n) stage s
    unfolding resume connect_step
    failed-Ends n stage s failed = (
      1,
      omega arith,
      inr (
        (stage, rw (resume, connect_step, failed) failed),
        rw (resume, connect_step, failed) refl,
        rw (resume, connect_step, failed) refl,
      ),
    )

    Ends-step :
        (n : ℕ) (stage further : Stage) (s : L.State)
        → next_stage stage m.consumers ≡ some further
        → ((t : L.State) → awaited L ttl_ms stage s ≡ some t → Ends n further t)
        → Ends (suc n) stage s
    unfolding resume connect_step
    Ends-step n stage further s next rest = elim (Option-cases (awaited L ttl_ms stage s)) [
      | inl failed ↦ failed-Ends n stage s failed
      | inr (t, did) ↦
          let (k, few, end) = rest t did in
          let same : resume L ttl_ms 0 (during stage s) ≡ during further t =
            rw (resume, connect_step, did, next) refl in
          (
            suc k,
            omega (arith, few),
            subst
                (λ e.
                  IsBack m.consumers m.timers m.attempts (run (goes_on k) e)
                  ⊎ IsCaught m.timers m.attempts (run (goes_on k) e))
                (sym same) end,
          )
    ]

    Ends-last :
        (stage : Stage) (s : L.State)
        → next_stage stage m.consumers ≡ none
        → ((t : L.State) → awaited L ttl_ms stage s ≡ some t → L.consuming t ≡ m.consumers)
        → Ends 1 stage s
    unfolding resume connect_step
    Ends-last stage s next all = elim (Option-cases (awaited L ttl_ms stage s)) [
      | inl failed ↦ failed-Ends 0 stage s failed
      | inr (t, did) ↦ (
        1,
        omega arith,
        inl (
          rw (resume, connect_step, did, next) (all t did),
          rw (resume, connect_step, did, next) refl,
          rw (resume, connect_step, did, next) refl,
        ),
      )
    ]

    -- the consumers from a position on
    registering-Ends :
        (before : List QueueName) (q : QueueName) (rest : List QueueName) (s : L.State)
        → m.consumers ≡ before ++ (q ∷ rest)
        → L.consuming s ≡ before
        → Ends (suc (length rest)) (registering (length before) q) s
    unfolding first awaited
    registering-Ends before q [] s all so_far =
        Ends-last (registering (length before) q) s
          (ap (stage_at (suc (length before))) (following m.consumers before q [] all))
          (λ t did. L.consume_done q s t did ∙ ap (λ xs. xs ++ q ∷ []) so_far ∙ sym all)
    registering-Ends before q (r ∷ rest) s all so_far =
        let longer : m.consumers ≡ (before ++ q ∷ []) ++ (r ∷ rest) =
          all ∙ sym (append_assoc before (q ∷ []) (r ∷ rest)) in
        Ends-step (suc (length rest)) (registering (length before) q)
          (registering (suc (length before)) r) s
          (ap (stage_at (suc (length before))) (following m.consumers before q (r ∷ rest) all))
          (λ t did.
            subst (λ i. Ends (suc (length rest)) (registering i r) t) (length-snoc before q)
              (registering-Ends (before ++ q ∷ []) r rest t longer
                (L.consume_done q s t did ∙ ap (λ xs. xs ++ q ∷ []) so_far)))

    binding-Ends :
        (s : L.State) → L.consuming s ≡ [] → Ends (suc (length m.consumers)) binding_stage s
    unfolding awaited
    binding-Ends s none_yet = elim (List-cases m.consumers) [
      | inl empty ↦
          subst (λ n. Ends (suc n) binding_stage s) (sym (ap length empty))
            (Ends-last binding_stage s (rw empty refl)
              (λ t did. L.bind_delay_queue_done delay_exchange s t did ∙ none_yet ∙ sym empty))
      | inr (q, rest, all) ↦
          subst (λ n. Ends (suc n) binding_stage s) (sym (ap length all))
            (Ends-step (suc (length rest)) binding_stage (registering 0 q) s (rw all refl) (λ t did.
              registering-Ends [] q rest t all
                (L.bind_delay_queue_done delay_exchange s t did ∙ none_yet)))
    ]

    after_channel :
        (s : L.State)
        → L.consuming s ≡ []
        → Ends (suc (suc (suc (suc (length m.consumers))))) delay_exchange_stage s
    unfolding awaited
    after_channel s empty =
        let n = suc (length m.consumers) in
        Ends-step (suc (suc n)) delay_exchange_stage work_exchange_stage s refl (λ s1 d1.
          let e1 = L.assert_exchange_done delay_exchange fanout s s1 d1 ∙ empty in
          Ends-step (suc n) work_exchange_stage delay_queue_stage s1 refl (λ s2 d2.
            let e2 = L.assert_exchange_done work_exchange direct s1 s2 d2 ∙ e1 in
            Ends-step n delay_queue_stage binding_stage s2 refl (λ s3 d3.
              binding-Ends s3 (L.assert_delay_queue_done ttl_ms work_exchange s2 s3 d3 ∙ e2))))

    pub connecting-Ends :
        (s : L.State) → Ends (suc (suc (suc (suc (suc (suc (length m.consumers))))))) connecting s
    unfolding awaited
    connecting-Ends s =
        let n = suc (length m.consumers) in
        Ends-step (suc (suc (suc (suc n)))) connecting opening s refl (λ s1 d1.
          Ends-step (suc (suc (suc n))) opening delay_exchange_stage s1 refl
            (λ s2 d2. after_channel s2 (L.create_confirm_channel_done s1 s2 d2)))
