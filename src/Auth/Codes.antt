-- ===== src/Auth/Codes.antt =====
-- One-time codes: how often a code can be guessed, and what the right one does.
use kltn_high_concurrency_co.Prelude.{
  ℕ, suc, ◌+◌, ◌<◌, ◌≡◌, ◌⊎◌, ◌∙◌, refl, sym, subst, ap, false, none, some, arith, ◌==◌, revise,
  ==_refl, Option-cases, inl, inr,
}
use kltn_high_concurrency_co.Common.Exception.{ok, throw, error}
use kltn_high_concurrency_co.Redis.Commands.{Keyspace}
use kltn_high_concurrency_co.Redis.{Redis}
use kltn_high_concurrency_co.Prisma.{Table}
use kltn_high_concurrency_co.Auth.Keys.{
  Email, otp_key, otp_lock_key, AuthValue, counter, schema, UserRow, same_email,
}
use kltn_high_concurrency_co.Auth.Service.{
  too_many, refused, pending_user, activate_row, wrong_otp, activate, verify_otp,
}

abbrev pub Secrets : Type 0
Secrets = Keyspace schema

-- The code of an address waits with `a` attempts made and k + 1 seconds left, and the address is
-- not locked.
pub record IsOpen (email : Email) (code a k : ℕ) (h : Secrets) : Type 0 where
  pub unlocked : h.strings (otp_lock_key email) ≡ none
  pub waits :
      h.strings (otp_key email)
      ≡ some (record { value = record { number = code; attempts = some a }; left = some (suc k) })

-- The code is gone, and the address is locked for the full time.
pub record IsLocked (email : Email) (h : Secrets) : Type 0 where
  pub gone : h.strings (otp_key email) ≡ none
  pub lock : h.strings (otp_lock_key email) ≡ some (record { value = counter 1; left = some 900 })

module _ (R : Redis schema) (T : Table UserRow same_email) (email : Email) (code k : ℕ) where
  wrong-again :
      (a guess : ℕ) (s : R.State) (d : T.State)
      → a + 1 < 3
      → (code == guess) ≡ false
      → IsOpen email code a k (R.view s)
      → (s' : R.State) × (verify_otp R T email guess (s, d) ≡ (throw refused, (s', d)))
        × IsOpen email code (a + 1) k (R.view s')
  unfolding verify_otp wrong_otp
  wrong-again a guess s d few wrong o =
      let v : AuthValue = record { number = code; attempts = some (a + 1) } in
      (
        R.set_ex (otp_key email) v (suc k) s,
        ground (
          arith,
          R.exists_lem (otp_lock_key email) s,
          R.get_lem (otp_key email) s,
          R.ttl_lem (otp_key email) s,
          o.unlocked,
          o.waits,
        ),
        record {
          unlocked = ground (arith, R.view-set_ex (otp_key email) v (suc k) s, o.unlocked);
          waits = ground (arith, R.view-set_ex (otp_key email) v (suc k) s, ==_refl email);
        },
      )

  wrong-last :
      (a guess : ℕ) (s : R.State) (d : T.State)
      → 2 < a + 1
      → (code == guess) ≡ false
      → IsOpen email code a k (R.view s)
      → (s' : R.State) × (verify_otp R T email guess (s, d) ≡ (throw too_many, (s', d)))
        × IsLocked email (R.view s')
  unfolding verify_otp wrong_otp
  wrong-last a guess s d many wrong o =
      let s1 = R.del (otp_key email) s in
      (
        R.set_ex (otp_lock_key email) (counter 1) 900 s1,
        ground (
          arith,
          R.exists_lem (otp_lock_key email) s,
          R.get_lem (otp_key email) s,
          o.unlocked,
          o.waits,
        ),
        record {
          gone = ground (
            arith,
            R.view-set_ex (otp_lock_key email) (counter 1) 900 s1,
            R.view-del (otp_key email) s,
            ==_refl email,
          );
          lock =
              ground (arith, R.view-set_ex (otp_lock_key email) (counter 1) 900 s1, ==_refl email);
        },
      )

  locked_out :
      (n guess : ℕ) (s : R.State) (d : T.State)
      → n < 900
      → IsLocked email (R.view s)
      → verify_otp R T email guess (R.elapse n s, d) ≡ (throw too_many, (R.elapse n s, d))
  unfolding verify_otp
  locked_out n guess s d p l =
      ground (arith, R.exists_lem (otp_lock_key email) (R.elapse n s), R.view-elapse n s, l.lock)

  -- The state after three guesses in a row.
  abbrev pub after_three : ℕ → ℕ → ℕ → R.State → T.State → R.State × T.State
  after_three g1 g2 g3 s d =
      (verify_otp R T email g3 (verify_otp R T email g2 (verify_otp R T email g1 (s, d)).1).1).1

  -- After three wrong guesses in a row at a fresh code, at an address that is not locked, every
  -- guess within 15 minutes is refused with 429, also the right code, and changes nothing, on
  -- every server; the users are as before.
  pub verify_otp-three_wrong :
      (g1 g2 g3 g n : ℕ) (s : R.State) (d : T.State)
      → (code == g1) ≡ false
      → (code == g2) ≡ false
      → (code == g3) ≡ false
      → IsOpen email code 0 k (R.view s)
      → n < 900
      → let w = after_three g1 g2 g3 s d in
        (w.1 ≡ d)
        × (verify_otp R T email g (R.elapse n w.0, w.1) ≡ (throw too_many, (R.elapse n w.0, w.1)))
  verify_otp-three_wrong g1 g2 g3 g n s d w1 w2 w3 o p =
      let (s1, e1, o1) = wrong-again 0 g1 s d (omega arith) w1 o in
      let (s2, e2, o2) = wrong-again 1 g2 s1 d (omega arith) w2 o1 in
      let (s3, e3, l) = wrong-last 2 g3 s2 d (omega arith) w3 o2 in
      let third : after_three g1 g2 g3 s d ≡ (s3, d) =
        ap (λ w. (verify_otp R T email g3 (verify_otp R T email g2 w.1).1).1) e1
        ∙ ap (λ w. (verify_otp R T email g3 w.1).1) e2
        ∙ ap (λ w. w.1) e3 in
      subst
        (λ w.
          (w.1 ≡ d)
          × (verify_otp R T email g (R.elapse n w.0, w.1)
              ≡ (throw too_many, (R.elapse n w.0, w.1))))
        (sym third) (refl, locked_out n g s3 d p l)

  -- The right code, at an address that is not locked: either the write of the users is rejected and nothing changes, or
  -- exactly the users with the address that wait for it become active and the code is gone.
  pub verify_otp-right :
      (a : ℕ) (s : R.State) (d : T.State)
      → IsOpen email code a k (R.view s)
      → ((T.update_many (pending_user email) activate_row d ≡ none)
          × (verify_otp R T email code (s, d) ≡ (throw error, (s, d))))
        ⊎ (((verify_otp R T email code (s, d)).0 ≡ ok tt)
            × (T.rows (verify_otp R T email code (s, d)).1.1
                ≡ revise (pending_user email) activate_row (T.rows d))
            × ((R.view (verify_otp R T email code (s, d)).1.0).strings (otp_key email) ≡ none))
  unfolding verify_otp activate
  verify_otp-right a s d o =
      elim (Option-cases (T.update_many (pending_user email) activate_row d)) [
        | inl e ↦ inl (
          e,
          ground (
            arith,
            R.exists_lem (otp_lock_key email) s,
            R.get_lem (otp_key email) s,
            o.unlocked,
            o.waits,
            ==_refl code,
          ),
        )
        | inr ((n, d'), e) ↦
            let right : verify_otp R T email code (s, d) ≡ (ok tt, (R.del (otp_key email) s, d')) =
              ground (
                arith,
                R.exists_lem (otp_lock_key email) s,
                R.get_lem (otp_key email) s,
                o.unlocked,
                o.waits,
                ==_refl code,
              ) in
            inr (
              ap (λ w. w.0) right,
              ap (λ w. T.rows w.1.1) right
                  ∙ (T.update_many_done (pending_user email) activate_row d d' n e).0,
              ap (λ w. (R.view w.1.0).strings (otp_key email)) right
                  ∙ ground (arith, R.view-del (otp_key email) s, ==_refl email),
            )
      ]
