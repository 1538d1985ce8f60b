-- ===== src/Users/Addresses.antt =====
-- No two users ever have the same address, in any history of calls of the service.
use kltn_high_concurrency_co.Prelude.{
  ℕ, ◌≡◌, ◌⊎◌, refl, sym, ◌∙◌, subst, inl, inr, false, some, List, [], ◌∷◌, arith, any, revise,
  revise_none, HasKeys, HasKeys-revise, ==→eq, ◌==◌, Text, same_codes, same_codes_sym, split,
  Bool-cases,
}
use kltn_high_concurrency_co.Common.Ids.{UserId}
use kltn_high_concurrency_co.Common.Exception.{Result-cases}
use kltn_high_concurrency_co.Common.AuditLog.{
  update_profile_action, AuditRow, never_same, answer_with_audit, answer_with_audit-kept,
}
use kltn_high_concurrency_co.Redis.{Redis}
use kltn_high_concurrency_co.Prisma.{Table}
use kltn_high_concurrency_co.Prisma.Single.{update_one, update_one-cases}
use kltn_high_concurrency_co.Catalog.{is_cleared}
use kltn_high_concurrency_co.Users.Keys.{
  AccountRow, same_address, by_user_id, by_email, schema, bar, part,
}
use kltn_high_concurrency_co.Users.{
  UpdateProfileDto, has_fields, patch_account, set_email, request_email_change, update_profile,
  verify_email_change,
}
use kltn_high_concurrency_co.Users.Guards.{verify_email_change-guards}

abbrev pub user_key : AccountRow → UserId
user_key row = row.id

-- No two rows have the same address.
abbrev pub HasEmails : List AccountRow → Type 0
HasEmails [] = Unit
HasEmails (x ∷ xs) = (any (by_email x.email) xs ≡ false) × HasEmails xs

any_email-set :
    (u : UserId) (e email : Text) (xs : List AccountRow)
    → same_codes email e ≡ false
    → any (by_email e) xs ≡ false
    → any (by_email e) (revise (by_user_id u) (set_email email) xs) ≡ false
unfolding any revise
any_email-set u e email [] new h = refl
any_email-set u e email (x ∷ xs) new h = ground (arith, any_email-set u e email xs new)

HasEmails-set :
    (u : UserId) (email : Text) (xs : List AccountRow)
    → HasKeys user_key xs
    → any (by_email email) xs ≡ false
    → HasEmails xs
    → HasEmails (revise (by_user_id u) (set_email email) xs)
unfolding any revise
HasEmails-set u email [] keys unused h = tt
HasEmails-set u email (x ∷ xs) keys unused h = elim (Bool-cases (x.id == u)) [
  | inl mine ↦
      let others : any (by_user_id u) xs ≡ false =
        subst (λ m. any (by_user_id m) xs ≡ false) (==→eq x.id u mine) keys.0 in
      rw (revise, mine, revise_none (by_user_id u) (set_email email) xs others)
        (ground (arith, unused), h.1)
  | inr other ↦
      let new : same_codes email x.email ≡ false =
        same_codes_sym email x.email ∙ ground (arith, unused) in
      rw (revise, other)
        (
          any_email-set u x.email email xs new h.0,
          HasEmails-set u email xs keys.1 (ground (arith, unused)) h.1,
        )
]

any_email-patch :
    (u : UserId) (e : Text) (dto : UpdateProfileDto) (xs : List AccountRow)
    → any (by_email e) (revise (by_user_id u) (patch_account dto) xs) ≡ any (by_email e) xs
unfolding any revise
any_email-patch u e dto [] = refl
any_email-patch u e dto (x ∷ xs) = ground (arith, any_email-patch u e dto xs)

HasEmails-patch :
    (u : UserId) (dto : UpdateProfileDto) (xs : List AccountRow)
    → HasEmails xs
    → HasEmails (revise (by_user_id u) (patch_account dto) xs)
unfolding revise
HasEmails-patch u dto [] h = tt
HasEmails-patch u dto (x ∷ xs) h = elim (Bool-cases (x.id == u)) [
  | inl mine ↦
      rw (revise, mine) (any_email-patch u x.email dto xs ∙ h.0, HasEmails-patch u dto xs h.1)
  | inr other ↦
      rw (revise, other) (any_email-patch u x.email dto xs ∙ h.0, HasEmails-patch u dto xs h.1)
]

module _ (R : Redis schema) (T : Table AccountRow same_address)
    (A : Table AuditRow never_same) where
  -- An update of a profile changes the fields of the user, or no row.
  update_profile-rows :
      (u : UserId) (dto : UpdateProfileDto) (d : T.State) (a : A.State)
      → (T.rows (update_profile R T A u dto (d, a)).1.0 ≡ T.rows d)
        ⊎ (T.rows (update_profile R T A u dto (d, a)).1.0
            ≡ revise (by_user_id u) (patch_account dto) (T.rows d))
  unfolding update_profile
  update_profile-rows u dto d a = elim (Bool-cases (has_fields dto)) [
    | inr empty ↦ inl (rw (update_profile, empty) refl)
    | inl changes ↦ elim (Bool-cases (is_cleared dto.full_name)) [
      | inl nulls ↦ inl (rw (update_profile, changes, nulls) refl)
      | inr full ↦ elim (update_one-cases T (by_user_id u) (patch_account dto) d (λ x fits. fits)) [
        | inl (bad, kept) ↦ inl (rw (update_profile, changes, full, bad) kept)
        | inr (row, good, rows, found) ↦
            let d' = (update_one T (by_user_id u) (patch_account dto) d).1 in
            let log : AuditRow = record {
              user_id = u;
              action = update_profile_action;
              resource_id = some u;
            } in
            let state = answer_with_audit-kept A log tt d' a in
            inr (elim (Result-cases (answer_with_audit A log tt d' a).0) [
              | inl (written, e) ↦ rw (update_profile, changes, full, good, e) (rw (state) rows)
              | inr (x, e) ↦ rw (update_profile, changes, full, good, e) (rw (state) rows)
            ])
      ]
    ]
  ]

  -- A call of the service; time passes between calls.
  pub data Call : Type 0 where
    update_call : UserId → UpdateProfileDto → Call
    request_call : UserId → Text → Text → Call
    verify_call : UserId → Text → Call
    wait_call : ℕ → Call

  abbrev pub perform : Call → R.State × (T.State × A.State) → R.State × (T.State × A.State)
  perform (update_call u dto) (s, w) = (s, (update_profile R T A u dto w).1)
  perform (request_call u email otp) (s, w) = ((request_email_change R T u email otp w.0 s).1, w)
  perform (verify_call u otp) w = (verify_email_change R T A u otp w).1
  perform (wait_call n) (s, w) = (R.elapse n s, w)

  abbrev pub run : List Call → R.State × (T.State × A.State) → R.State × (T.State × A.State)
  run [] w = w
  run (c ∷ cs) w = run cs (perform c w)

  -- Ids and addresses are distinct.
  abbrev pub IsSound : List AccountRow → Type 0
  IsSound rows = HasKeys user_key rows × HasEmails rows

  perform-IsSound :
      (c : Call) (w : R.State × (T.State × A.State))
      → IsSound (T.rows w.1.0)
      → IsSound (T.rows (perform c w).1.0)
  perform-IsSound (update_call u dto) (s, (d, a)) h = elim (update_profile-rows u dto d a) [
    | inl kept ↦ subst IsSound (sym kept) h
    | inr changed ↦ subst IsSound (sym changed) (
      HasKeys-revise user_key (by_user_id u) (patch_account dto) (T.rows d) (λ x. refl) h.0,
      HasEmails-patch u dto (T.rows d) h.1,
    )
  ]
  perform-IsSound (request_call u email otp) w h = h
  perform-IsSound (wait_call n) w h = h
  perform-IsSound (verify_call u otp) (s, (d, a)) h =
      elim (verify_email_change-guards R T A u otp s d a) [
        | inl (x, kept) ↦ subst IsSound (sym kept) h
        | inr (stored, opened, waits, right, (unused, rows, answer)) ↦ subst IsSound (sym rows) (
          HasKeys-revise user_key (by_user_id u) (set_email (part 0 (split bar stored))) (T.rows d)
              (λ x. refl) h.0,
          HasEmails-set u (part 0 (split bar stored)) (T.rows d) h.0 unused h.1,
        )
      ]

  -- Every history of updates of profiles, requests and confirmations of new addresses and passing time, on every server and
  -- database, keeps the ids and the addresses of the users distinct.
  pub run-HasEmails :
      (cs : List Call) (w : R.State × (T.State × A.State))
      → IsSound (T.rows w.1.0)
      → IsSound (T.rows (run cs w).1.0)
  run-HasEmails [] w h = h
  run-HasEmails (c ∷ cs) w h = run-HasEmails cs (perform c w) (perform-IsSound c w h)
