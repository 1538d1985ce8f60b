-- ===== src/Users/Guards.antt =====
-- When the address of a user is changed, and what is written then.
use kltn_high_concurrency_co.Prelude.{
  ◌≡◌, refl, sym, ◌∙◌, inl, inr, ◌⊎◌, false, some, none, any, revise, Bool-cases, Option-cases,
  Text, same_codes, split, find-none, subst, same_codes→eq,
}
use kltn_high_concurrency_co.Common.Ids.{UserId}
use kltn_high_concurrency_co.Common.Exception.{
  Exception, Result, ok, throw, error, http_exception, bad_request, conflict,
}
use kltn_high_concurrency_co.Common.AuditLog.{
  change_email_action, AuditRow, never_same, answer_with_audit-kept, answer_with_audit-answers,
}
use kltn_high_concurrency_co.Redis.{Redis}
use kltn_high_concurrency_co.Prisma.{Table}
use kltn_high_concurrency_co.Prisma.Single.{update_one, update_one-cases}
use kltn_high_concurrency_co.Users.Keys.{
  AccountRow, same_address, by_user_id, by_email, change_key, change_lock_key, schema, bar, part,
  is_blank, parse_int,
}
use kltn_high_concurrency_co.Users.{
  set_email, locked_out, wrong_otp, change_email, verify_email_change,
}

module _ (R : Redis schema) (T : Table AccountRow same_address)
    (A : Table AuditRow never_same) where
  abbrev pub World : Type 0
  World = R.State × (T.State × A.State)

  abbrev pub Outcome : Type 0
  Outcome = Result (Unit {0}) × World

  -- The call threw and left the users alone.
  abbrev pub IsRefused : T.State → Outcome → Type 0
  IsRefused d o = ((x : Exception) × (o.0 ≡ throw x)) × (T.rows o.1.1.0 ≡ T.rows d)

  -- The address, which no user had, is the user's now; the answer is ok, or the audit row was rejected.
  abbrev pub IsMoved : UserId → Text → T.State → Outcome → Type 0
  IsMoved u email d o =
      (any (by_email email) (T.rows d) ≡ false)
      × (T.rows o.1.1.0 ≡ revise (by_user_id u) (set_email email) (T.rows d))
      × ((o.0 ≡ ok tt) ⊎ (o.0 ≡ throw error))

  pub change_email-cases :
      (u : UserId) (email : Text) (s : R.State) (d : T.State) (a : A.State)
      → IsRefused d (change_email R T A u email (s, (d, a)))
        ⊎ IsMoved u email d (change_email R T A u email (s, (d, a)))
  unfolding change_email
  change_email-cases u email s d a = elim (Option-cases (T.find_first (by_email email) d)) [
    | inr (row, used) ↦
        inl (
          (http_exception conflict none, rw (change_email, used) refl),
          rw (change_email, used) refl,
        )
    | inl free ↦ elim (update_one-cases T (by_user_id u) (set_email email) d (λ x fits. fits)) [
      | inl (bad, kept) ↦
          inl ((error, rw (change_email, free, bad) refl), rw (change_email, free, bad) kept)
      | inr (row, good, rows, found) ↦
          let d' = (update_one T (by_user_id u) (set_email email) d).1 in
          let log : AuditRow = record {
            user_id = u;
            action = change_email_action;
            resource_id = some u;
          } in
          let unused =
            find-none (by_email email) (T.rows d)
              (sym (T.find_first_lem (by_email email) d) ∙ free) in
          let state = answer_with_audit-kept A log tt d' a in
          inr (elim (answer_with_audit-answers A log tt d' a) [
            | inl written ↦ (
              unused,
              rw (change_email, free, good, written, state) rows,
              inl (rw (change_email, free, good, written) refl),
            )
            | inr (failed, why) ↦ (
              unused,
              rw (change_email, free, good, failed, state) rows,
              inr (rw (change_email, free, good, failed) refl),
            )
          ])
    ]
  ]

  -- A confirmation that is refused changes no user. One that is not comes while the user is not locked, with the code
  -- that waits, the second part of the stored text; the first part, which no user has as address, becomes
  -- the user's, and the answer is ok unless the row of the audit log is rejected.
  pub verify_email_change-guards :
      (u : UserId) (otp : Text) (s : R.State) (d : T.State) (a : A.State)
      → IsRefused d (verify_email_change R T A u otp (s, (d, a)))
        ⊎ ((stored : Text) × (R.exists (change_lock_key u) s ≡ false)
            × (R.get (change_key u) s ≡ some stored)
            × (otp ≡ part 1 (split bar stored))
            × IsMoved u (part 0 (split bar stored)) d (verify_email_change R T A u otp (s, (d, a))))
  unfolding verify_email_change
  verify_email_change-guards u otp s d a = elim (Bool-cases (R.exists (change_lock_key u) s)) [
    | inl locked ↦
        inl (
          (locked_out, rw (verify_email_change, locked) refl),
          rw (verify_email_change, locked) refl,
        )
    | inr opened ↦ elim (Option-cases (R.get (change_key u) s)) [
      | inl gone ↦ inl (
        (http_exception bad_request none, rw (verify_email_change, opened, gone) refl),
        rw (verify_email_change, opened, gone) refl,
      )
      | inr (stored, waits) ↦ elim (Bool-cases (is_blank stored)) [
        | inl blank ↦ inl (
          (http_exception bad_request none, rw (verify_email_change, opened, waits, blank) refl),
          rw (verify_email_change, opened, waits, blank) refl,
        )
        | inr full ↦
            let parts = split bar stored in
            elim (Bool-cases (same_codes otp (part 1 parts))) [
              | inr wrong ↦ inl (
                (
                  (wrong_otp R T u (part 0 parts) (part 1 parts) (parse_int (part 2 parts)) s).0,
                  rw (verify_email_change, opened, waits, full, wrong) refl,
                ),
                rw (verify_email_change, opened, waits, full, wrong) refl,
              )
              | inl right ↦
                  let same : verify_email_change R T A u otp (s, (d, a))
                      ≡ change_email R T A u (part 0 parts) (s, (d, a)) =
                    rw (verify_email_change, opened, waits, full, right) refl in
                  elim (change_email-cases u (part 0 parts) s d a) [
                    | inl refused ↦ inl (subst (IsRefused d) (sym same) refused)
                    | inr moved ↦ inr (
                      stored,
                      opened,
                      waits,
                      same_codes→eq otp (part 1 parts) right,
                      subst (IsMoved u (part 0 parts) d) (sym same) moved,
                    )
                  ]
            ]
      ]
    ]
  ]
