-- ===== src/Auth/Registration.antt =====
-- auth/auth.service.ts, `register`: a user, the role USER if there is none yet, and the user's role in one
-- transaction, and then a code. The hash of the password, the id and the code come in as arguments.
use kltn_high_concurrency_co.Prelude.{
  ℕ, ◌≡◌, ◌⊎◌, ◌∙◌, refl, sym, ap, subst, inl, inr, Bool, true, false, Option, none, some, [], ◌∷◌,
  ◌++◌, arith, ◌==◌, if◌then◌else◌, any, find, find-none, revise, Option-cases, Bool-cases,
}
use kltn_high_concurrency_co.Common.Ids.{UserId}
use kltn_high_concurrency_co.Common.Exception.{
  Exception, ok, throw, error, http_exception, conflict,
}
use kltn_high_concurrency_co.Common.Action.{Action}
use kltn_high_concurrency_co.Redis.{Redis}
use kltn_high_concurrency_co.Prisma.{done, p2002, rejected, Write-cases, Table}
use kltn_high_concurrency_co.Auth.Keys.{
  Email, schema, pending_verify, RoleName, user, organizer, admin, UserRow, same_email,
  is_pending_verify,
}
use kltn_high_concurrency_co.Auth.Service.{generate_and_store_otp}

-- The name of a role is unique.
abbrev pub same_role : RoleName → RoleName → Bool
same_role user user = true
same_role organizer organizer = true
same_role admin admin = true
same_role _ _ = false

abbrev pub by_email : Email → UserRow → Bool
by_email email row = row.email == email

abbrev pub by_id : UserId → UserRow → Bool
by_id id row = row.id == id

abbrev pub new_user : UserId → Email → ℕ → UserRow
new_user fresh email password_hash = record {
  id = fresh;
  email = email;
  password_hash = password_hash;
  status = pending_verify;
  roles = [];
}

abbrev pub add_user_role : UserRow → UserRow
add_user_role row = record row { roles = user ∷ row.roles }

module _ (R : Redis schema) (T : Table UserRow same_email) (L : Table RoleName same_role) where
  -- tx.role.upsert
  unfoldable pub upsert_role : RoleName → L.State → Option L.State
  upsert_role name l = elim (L.find_first (same_role name) l) [
    | some role ↦ some l
    | none ↦ elim (L.create name l) [ done l' ↦ some l' | p2002 ↦ none | rejected ↦ none ]
  ]

  -- the rest of the transaction, once the user is written
  unfoldable pub assign_role : UserId → T.State → L.State → Option (T.State × L.State)
  assign_role id d l = elim (upsert_role user l) [
    | none ↦ none
    | some l' ↦ elim (T.update_many (by_id id) add_user_role d) [
      | none ↦ none
      | some (n, d') ↦ elim (T.commit d') [
        | none ↦ none
        | some d'' ↦ elim (L.commit l') [ none ↦ none | some l'' ↦ some (d'', l'') ]
      ]
    ]
  ]

  unfoldable pub register :
      UserId → Email → ℕ → ℕ → Action (R.State × (T.State × L.State)) (Unit {0})
  register fresh email password_hash otp (s, (d, l)) = elim (T.find_first (by_email email) d) [
    | some existing ↦
        if is_pending_verify existing.status
        then (ok tt, (generate_and_store_otp R email otp s, (d, l)))
        else (throw (http_exception conflict none), (s, (d, l)))
    | none ↦ elim (T.create (new_user fresh email password_hash) d) [
      | p2002 ↦ (throw error, (s, (d, l)))
      | rejected ↦ (throw error, (s, (d, l)))
      | done d' ↦ elim (assign_role fresh d' l) [
        | none ↦ (throw error, (s, (d, l)))
        | some w ↦ (ok tt, (generate_and_store_otp R email otp s, w))
      ]
    ]
  ]

  -- A transaction that commits gave the role to the user that was written.
  assign_role-rows :
      (id : UserId) (d : T.State) (l : L.State) (w : T.State × L.State)
      → assign_role id d l ≡ some w
      → T.rows w.0 ≡ revise (by_id id) add_user_role (T.rows d)
  unfolding assign_role
  assign_role-rows id d l w h = elim (Option-cases (upsert_role user l)) [
    | inl failed ↦ absurd (ground (arith, h, failed))
    | inr (l', role) ↦ elim (Option-cases (T.update_many (by_id id) add_user_role d)) [
      | inl failed ↦ absurd (ground (arith, h, role, failed))
      | inr ((n, d'), written) ↦ elim (Option-cases (T.commit d')) [
        | inl failed ↦ absurd (ground (arith, h, role, written, failed))
        | inr (d'', kept) ↦ elim (Option-cases (L.commit l')) [
          | inl failed ↦ absurd (ground (arith, h, role, written, kept, failed))
          | inr (l'', both) ↦
              let same : d'' ≡ w.0 = ground (arith, h, role, written, kept, both) in
              subst (λ x. T.rows x ≡ revise (by_id id) add_user_role (T.rows d)) same
                (T.commit_done d' d'' kept
                  ∙ (T.update_many_done (by_id id) add_user_role d d' n written).0)
        ]
      ]
    ]
  ]

  -- What a registration that is answered leaves: the code is on the server, and the address either belongs to a user who waits for
  -- it and no row changes, or was free and is the new user's, who waits and has the role USER.
  abbrev pub IsRegistered :
      UserId
      → Email
      → ℕ
      → ℕ
      → R.State × (T.State × L.State)
      → R.State × (T.State × L.State)
      → Type 0
  IsRegistered fresh email password_hash otp before after =
      (after.0 ≡ generate_and_store_otp R email otp before.0)
      × (((x : UserRow) × (find (by_email email) (T.rows before.1.0) ≡ some x)
            × (is_pending_verify x.status ≡ true)
            × (after.1 ≡ before.1))
          ⊎ ((any (by_email email) (T.rows before.1.0) ≡ false)
              × (T.rows after.1.0
                  ≡ revise (by_id fresh) add_user_role
                      (T.rows before.1.0 ++ new_user fresh email password_hash ∷ []))))

  -- A registration either throws and changes nothing, or is answered, and leaves what IsRegistered says.
  pub register-answers :
      (fresh : UserId) (email : Email) (password_hash otp : ℕ) (w : R.State × (T.State × L.State))
      → ((x : Exception) × (register fresh email password_hash otp w ≡ (throw x, w)))
        ⊎ (((register fresh email password_hash otp w).0 ≡ ok tt)
            × IsRegistered fresh email password_hash otp w
                (register fresh email password_hash otp w).1)
  unfolding register
  register-answers fresh email password_hash otp (s, (d, l)) =
      elim (Option-cases (T.find_first (by_email email) d)) [
        | inr (x, used) ↦ elim (Bool-cases (is_pending_verify x.status)) [
          | inl waits ↦ inr (
            rw (register, used, waits) refl,
            rw (register, used, waits)
                (refl, inl (x, sym (T.find_first_lem (by_email email) d) ∙ used, waits, refl)),
          )
          | inr other ↦ inl (http_exception conflict none, rw (register, used, other) refl)
        ]
        | inl free ↦
            let row = new_user fresh email password_hash in
            elim (Write-cases (T.create row d)) [
              | inr (inl clash) ↦ inl (error, rw (register, free, clash) refl)
              | inr (inr failed) ↦ inl (error, rw (register, free, failed) refl)
              | inl (d', made) ↦ elim (Option-cases (assign_role fresh d' l)) [
                | inl failed ↦ inl (error, rw (register, free, made, failed) refl)
                | inr (w, assigned) ↦ inr (
                  rw (register, free, made, assigned) refl,
                  rw (register, free, made, assigned)
                      (
                        refl,
                        inr (
                          find-none (by_email email) (T.rows d)
                              (sym (T.find_first_lem (by_email email) d) ∙ free),
                          assign_role-rows fresh d' l w assigned
                              ∙ ap (revise (by_id fresh) add_user_role)
                                  (T.create_done row d d' made).0,
                        ),
                      ),
                )
              ]
            ]
      ]
