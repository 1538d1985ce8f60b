-- ===== src/Queue/Rounds.antt =====
-- A user who waits is let in after enough rounds of the scheduler, when the users that are let in come
-- to the end of their tokens.
use kltn_high_concurrency_co.Prelude.{
  ℕ, zero, suc, ◌+◌, ◌*◌, ◌<◌, ◌≤◌, ◌≡◌, ◌∙◌, ◌⊎◌, ap, sym, subst, refl, true, false, some, List,
  [], ◌∷◌, ◌++◌, arith, length, inl, inr, All, get_elem?,
}
use kltn_high_concurrency_co.Common.Ids.{UserId}
use kltn_high_concurrency_co.Redis.{Redis}
use kltn_high_concurrency_co.Queue.Ports.{AdmitInput}
use kltn_high_concurrency_co.Queue.Adapter.{schema, token_key, admit}
use kltn_high_concurrency_co.Queue.History.{Call, admits, passes, step, run}
use kltn_high_concurrency_co.Queue.Cycle.{IsAdmitted, admit-cycle}
use kltn_high_concurrency_co.Queue.Line.{step-IsQueue}
use kltn_high_concurrency_co.Queue.Progress.{
  IsShort, within, strings-clean_spec, admit_spec-IsShort, expired, active-clean_spec, active-grows,
}
use kltn_high_concurrency_co.Queue.Spec.{
  waiting, users, active, has_token, clean_spec, cycle, admit-refines,
}
use kltn_high_concurrency_co.Queue.Places.{IsWaiting, IsQuiet, quiet-IsWaiting, run-IsWaiting}

suc_mul : (n k : ℕ) → suc n * k ≡ n * k + k
suc_mul n k = omega arith

-- An entry of two lists in a row is of the first or of the second.
split_place :
    (P : UserId → Type 0) (us vs : List UserId) (r : ℕ) (u : UserId)
    → All P us
    → get_elem? (us ++ vs) r ≡ some u
    → P u ⊎ ((r' : ℕ) × (r ≡ length us + r') × (get_elem? vs r' ≡ some u))
split_place P [] vs r u all h = inr (r, omega arith, h)
split_place P (x ∷ us) vs zero u all h =
    let same : x ≡ u = ground (arith, h) in inl (subst P same all.0)
split_place P (x ∷ us) vs (suc r) u all h = elim (split_place P us vs r u all.1 h) [
  | inl here ↦ inl here
  | inr (r', far, there) ↦ inr (r', omega (arith, far), there)
]

module _ (R : Redis schema) (i : AdmitInput) (timed : 0 < i.ttl_seconds) (u : UserId) where
  -- Calls of users, then time passes, then the scheduler admits.
  abbrev pub play : List Call × ℕ → R.State → R.State
  play (cs, n) s = (admit R i (R.elapse n (run R s cs))).1

  abbrev pub play_all : List (List Call × ℕ) → R.State → R.State
  play_all [] s = s
  play_all (round ∷ rounds) s = play_all rounds (play round s)

  -- Between the users' calls, which are no admissions, and the admission the lifetime of a token passes.
  abbrev pub IsLong : List Call × ℕ → Type 0
  IsLong (cs, n) = All IsQuiet cs × (i.ttl_seconds ≤ n)

  -- an admission after all tokens have ended lets as many in as there are places
  admitted-few :
      (s : R.State)
      → ((v : UserId) → has_token i.event_id v (R.view s) ≡ false)
      → length (active i.event_id (cycle i (R.view s)).1) ≤ length (cycle i (R.view s)).0
  admitted-few s dead =
      let w = R.view s in
      let w' = clean_spec i.event_id (active i.event_id w) w in
      let nobody : active i.event_id w' ≡ [] =
        active-clean_spec i.event_id (active i.event_id w) w dead refl in
      omega (
        arith,
        ap length nobody,
        active-grows i.event_id i.cap i.ttl_seconds (waiting i.event_id w') w',
      )

  advance :
      (r : ℕ) (s : R.State)
      → ((v : UserId) → has_token i.event_id v (R.view s) ≡ false)
      → IsWaiting i.event_id i.ttl_seconds u r (R.view s)
      → IsAdmitted i.event_id i.ttl_seconds (R.view (admit R i s).1) u
        ⊎ ((r' : ℕ) × (r' + i.cap ≤ r)
            × IsWaiting i.event_id i.ttl_seconds u r' (R.view (admit R i s).1))
  unfolding step
  advance r s dead w =
      let after = R.view (admit R i s).1 in
      let start = R.view s in
      let cleaned = clean_spec i.event_id (active i.event_id start) start in
      let (us, answer, line, all, full) = admit-cycle R i s timed in
      let (answer', left) = admit-refines R i s timed in
      let same : us ≡ (cycle i start).0 = ground (arith, answer, answer') in
      let few : length (active i.event_id after) ≤ length us =
        omega (
          arith,
          ap length same,
          ap (λ v. length (active i.event_id v)) left,
          admitted-few s dead,
        ) in
      elim (split_place (IsAdmitted i.event_id i.ttl_seconds after) us
        (users (waiting i.event_id after)) r u all (ap (λ q. get_elem? q r) line ∙ w.place)) [
          | inl here ↦ inl here
          | inr (r', far, there) ↦ elim full [
            | inr empty ↦ absurd (ground (arith, ap (λ q. get_elem? q r') empty, there))
            | inl many ↦ inr (
              r',
              omega (arith, far, few, many),
              record {
                queue = step-IsQueue R i.event_id s (admits i) timed w.queue;
                short = subst (IsShort i.event_id i.ttl_seconds) (sym left) (
                    admit_spec-IsShort i.event_id i.cap i.ttl_seconds (waiting i.event_id cleaned)
                      cleaned
                      (subst
                        (λ f.
                          (v : UserId) → within i.ttl_seconds (f (token_key i.event_id v)) ≡ true)
                        (sym (strings-clean_spec i.event_id (active i.event_id start) start))
                        w.short));
                place = there;
              },
            )
          ]
        ]

  round-advance :
      (r : ℕ) (round : List Call × ℕ) (s : R.State)
      → IsLong round
      → IsWaiting i.event_id i.ttl_seconds u r (R.view s)
      → IsAdmitted i.event_id i.ttl_seconds (R.view (play round s)) u
        ⊎ ((r' : ℕ) × (r' + i.cap ≤ r)
            × IsWaiting i.event_id i.ttl_seconds u r' (R.view (play round s)))
  unfolding step
  round-advance r (cs, n) s (quiet, long) w =
      let t = run R s cs in
      let before = run-IsWaiting R i.event_id i.ttl_seconds u r cs s quiet w in
      advance r (R.elapse n t)
        (λ v.
          ap (has_token i.event_id v) (R.view-elapse n t)
          ∙ expired i.event_id i.ttl_seconds n (R.view t) v before.short long)
        (quiet-IsWaiting R i.event_id i.ttl_seconds u r (passes n) t tt before)

  -- Progress, on every server: take a user at place r of the queue of an event, counted from 0, in a state whose queue is in order and
  -- whose tokens end within the lifetime, which is above zero. Take rounds of any joins and polls of any
  -- users and of passing time, after which at least the lifetime passes and `admit` runs with the limit
  -- `cap`. If r is below the number of rounds times the limit, then after one of these rounds the user counts
  -- as active and has a token with the full lifetime.
  pub play_all-IsAdmitted :
      (r : ℕ) (rounds : List (List Call × ℕ)) (s : R.State)
      → All IsLong rounds
      → r < length rounds * i.cap
      → IsWaiting i.event_id i.ttl_seconds u r (R.view s)
      → (played : List (List Call × ℕ)) × (later : List (List Call × ℕ)) × (rounds
          ≡ played ++ later)
        × IsAdmitted i.event_id i.ttl_seconds (R.view (play_all played s)) u
  play_all-IsAdmitted r [] s long near w = absurd (omega (arith, near))
  play_all-IsAdmitted r (round ∷ rounds) s long near w = elim (round-advance r round s long.0 w) [
    | inl now ↦ (round ∷ [], rounds, refl, now)
    | inr (r', closer, w') ↦
        let near' : r' < length rounds * i.cap =
          omega (arith, near, closer, suc_mul (length rounds) i.cap) in
        let (played, later, parts, has_turn) =
          play_all-IsAdmitted r' rounds (play round s) long.1 near' w' in
        (round ∷ played, later, ap (λ rs. round ∷ rs) parts, has_turn)
  ]
