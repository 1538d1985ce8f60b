-- ===== src/Auth/Confirmation.antt =====
-- The code of a registration: what it does, and how a second registration renews it.
use kltn_high_concurrency_co.Prelude.{
  ℕ, ◌≡◌, ◌⊎◌, ◌∙◌, refl, sym, subst, inl, inr, true, none, some, arith, ==_refl, find, revise,
}
use kltn_high_concurrency_co.Common.Ids.{UserId}
use kltn_high_concurrency_co.Common.Exception.{ok, throw, error}
use kltn_high_concurrency_co.Redis.{Redis}
use kltn_high_concurrency_co.Prisma.{Table}
use kltn_high_concurrency_co.Auth.Keys.{
  Email, otp_key, otp_lock_key, schema, RoleName, UserRow, same_email, is_pending_verify,
}
use kltn_high_concurrency_co.Auth.Service.{
  generate_and_store_otp, pending_user, activate_row, verify_otp,
}
use kltn_high_concurrency_co.Auth.Codes.{IsOpen, verify_otp-right}
use kltn_high_concurrency_co.Auth.Keys.{otp_resend_key}
use kltn_high_concurrency_co.Auth.Registration.{same_role, by_email, register, register-answers}

module _ (R : Redis schema) (T : Table UserRow same_email) (L : Table RoleName same_role) where
  generated-IsOpen :
      (email : Email) (otp : ℕ) (s : R.State)
      → (R.view s).strings (otp_lock_key email) ≡ none
      → IsOpen email otp 0 299 (R.view (generate_and_store_otp R email otp s))
  unfolding generate_and_store_otp
  generated-IsOpen email otp s unlocked =
      let seen =
        R.view-set_ex (otp_key email) (record { number = otp; attempts = some 0 }) 300 s
          (omega arith) in
      record {
        unlocked = ground (arith, seen, unlocked);
        waits = ground (arith, seen, ==_refl email);
      }

  -- After a registration that is answered, for an address that is not locked, the code that was drawn either meets a
  -- database that rejects the write of the users, and nothing changes, or is accepted, makes exactly the users with
  -- the address that wait active, and is gone.
  pub verify_otp-register :
      (fresh : UserId) (email : Email) (password_hash otp : ℕ) (w : R.State × (T.State × L.State))
      → (R.view w.0).strings (otp_lock_key email) ≡ none
      → (register R T L fresh email password_hash otp w).0 ≡ ok tt
      → let (s, (d, l)) = (register R T L fresh email password_hash otp w).1 in
        ((T.update_many (pending_user email) activate_row d ≡ none)
          × (verify_otp R T email otp (s, d) ≡ (throw error, (s, d))))
        ⊎ (((verify_otp R T email otp (s, d)).0 ≡ ok tt)
            × (T.rows (verify_otp R T email otp (s, d)).1.1
                ≡ revise (pending_user email) activate_row (T.rows d))
            × ((R.view (verify_otp R T email otp (s, d)).1.0).strings (otp_key email) ≡ none))
  verify_otp-register fresh email password_hash otp w unlocked answered =
      let after = (register R T L fresh email password_hash otp w).1 in
      elim (register-answers R T L fresh email password_hash otp w) [
        | inl (x, bad) ↦ absurd (ground (arith, answered, bad))
        | inr (good, (code, users)) ↦ verify_otp-right R T email otp 299 0 after.0 after.1.0 (
            subst (λ s. IsOpen email otp 0 299 (R.view s)) (sym code)
              (generated-IsOpen email otp w.0 unlocked))
      ]

  -- A registration for an address of a user who still waits is answered, whatever was guessed before: no row changes, there
  -- is a new code with no attempt made and the full time, unless the address is locked, and it does not
  -- count as a resend.
  pub register-again :
      (fresh : UserId) (email : Email) (password_hash otp : ℕ) (s : R.State) (w : T.State × L.State)
      (x : UserRow)
      → find (by_email email) (T.rows w.0) ≡ some x
      → is_pending_verify x.status ≡ true
      → (R.view s).strings (otp_lock_key email) ≡ none
      → (s' : R.State) × (register R T L fresh email password_hash otp (s, w) ≡ (ok tt, (s', w)))
        × IsOpen email otp 0 299 (R.view s')
        × ((R.view s').strings (otp_resend_key email) ≡ (R.view s).strings (otp_resend_key email))
  unfolding register generate_and_store_otp
  register-again fresh email password_hash otp s (d, l) x used waits unlocked =
      let found : T.find_first (by_email email) d ≡ some x =
        T.find_first_lem (by_email email) d ∙ used in
      (
        generate_and_store_otp R email otp s,
        rw (register, found, waits) refl,
        generated-IsOpen email otp s unlocked,
        ground (
          arith,
          R.view-set_ex (otp_key email) (record { number = otp; attempts = some 0 }) 300 s,
        ),
      )
