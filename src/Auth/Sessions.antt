-- ===== src/Auth/Sessions.antt =====
-- Logins and logouts: who is let in, how failures are counted, and how a token is revoked.
use kltn_high_concurrency_co.Prelude.{
  ℕ, zero, suc, ◌-◌, ◌<◌, ◌≤◌, ◌≡◌, ◌⊎◌, refl, Bool, true, none, some, arith, ◌==◌, find, ==_refl,
  Bool-cases, Option-cases, inl, inr,
}
use kltn_high_concurrency_co.Common.Ids.{UserId}
use kltn_high_concurrency_co.Common.Exception.{ok, throw}
use kltn_high_concurrency_co.Redis.Commands
use kltn_high_concurrency_co.Redis.{Redis}
use kltn_high_concurrency_co.Prisma.{Table, Write-cases}
use kltn_high_concurrency_co.Common.AuditLog.{AuditRow, never_same, login_action, logout_action}
use kltn_high_concurrency_co.Redis.Client.{set_for}
use kltn_high_concurrency_co.Auth.Keys.{
  Email, TokenId, AuthKey, login_fail_key, blacklist_key, AuthValue, counter, schema, UserStatus,
  pending_verify, active, locked, UserRow, same_email,
}
use kltn_high_concurrency_co.Auth.Service.{
  JwtPayload, too_many, refused, increment_login_fail, validate, let_in, check_status, login,
  logout,
}
use kltn_high_concurrency_co.Auth.Codes.{Secrets}

-- Whose token it is that a login answers.
pub record IsLetIn (compare : ℕ → ℕ → Bool) (password : ℕ) (p : JwtPayload) (row : UserRow)
    : Type 0 where
  pub is_active : row.status ≡ active
  pub matches : compare password row.password_hash ≡ true
  pub same_user : p.sub ≡ row.id
  pub same_roles : p.roles ≡ row.roles

status-cases : (s : UserStatus) → (s ≡ active) ⊎ ((s ≡ pending_verify) ⊎ (s ≡ locked))
status-cases active = inl refl
status-cases pending_verify = inr (inl refl)
status-cases locked = inr (inr refl)

-- A counter with the time it has left.
abbrev pub Counts : Email → ℕ → ℕ → Secrets → Type 0
Counts email n t h =
    h.strings (login_fail_key email) ≡ some (record { value = counter n; left = some t })

module _ (R : Redis schema) where
  -- The first failure of a login starts a counter that lives for 15 minutes, on every server.
  pub increment_login_fail-first :
      (email : Email) (s : R.State)
      → (R.view s).strings (login_fail_key email) ≡ none
      → Counts email 1 900 (R.view (increment_login_fail R (login_fail_key email) s))
  unfolding increment_login_fail
  increment_login_fail-first email s new = ground (
    arith,
    R.incr_lem (login_fail_key email) s,
    R.view-incr (login_fail_key email) s,
    R.view-expire (login_fail_key email) 900 (R.incr (login_fail_key email) s).1,
    new,
    ==_refl email,
  )

  -- Each later failure counts one more and leaves the time as it is.
  pub increment_login_fail-later :
      (email : Email) (n t : ℕ) (s : R.State)
      → Counts email (suc n) t (R.view s)
      → Counts email (suc (suc n)) t (R.view (increment_login_fail R (login_fail_key email) s))
  unfolding increment_login_fail
  increment_login_fail-later email n t s old = ground (
    arith,
    R.incr_lem (login_fail_key email) s,
    R.view-incr (login_fail_key email) s,
    R.view-expire (login_fail_key email) 900 (R.incr (login_fail_key email) s).1,
    old,
    ==_refl email,
  )

  view-set_for :
      (k : AuthKey) (v : AuthValue) (t : ℕ) (s : R.State)
      → 0 < t
      → R.view (set_for R k v t s) ≡ Commands.set_ex schema k v t (R.view s)
  view-set_for k v zero s p = ground arith
  view-set_for k v (suc t) s p = R.view-set_ex k v (suc t) s p

  -- the token is on the list after a logout, whatever the audit log does
  logout-lists :
      (A : Table AuditRow never_same) (u : UserId) (jti : TokenId) (exp now : ℕ) (s : R.State)
      (a : A.State)
      → now < exp
      → R.view (logout R A u jti exp now (s, a)).1.0
        ≡ Commands.set_ex schema (blacklist_key jti) (counter 1) (exp - now) (R.view s)
  unfolding logout
  logout-lists A u jti exp now s a early =
      let listed = view-set_for (blacklist_key jti) (counter 1) (exp - now) s (omega arith) in
      elim (Write-cases
        (A.create (record { user_id = u; action = logout_action; resource_id = none }) a)) [
          | inl (a', e) ↦ ground (arith, listed)
          | inr (inl e) ↦ ground (arith, listed)
          | inr (inr e) ↦ ground (arith, listed)
        ]

  -- A token that is logged out before its end is refused until then, on every server, also when the audit
  -- row of the logout cannot be written.
  pub validate-logout :
      (A : Table AuditRow never_same) (u : UserId) (exp now n : ℕ) (p : JwtPayload) (s : R.State)
      (a : A.State)
      → n < exp - now
      → (validate R p (R.elapse n (logout R A u p.jti exp now (s, a)).1.0)).0 ≡ throw refused
  unfolding validate
  validate-logout A u exp now n p s a early =
      let s' = (logout R A u p.jti exp now (s, a)).1.0 in
      ground (
        arith,
        R.exists_lem (blacklist_key p.jti) (R.elapse n s'),
        R.view-elapse n s',
        logout-lists A u p.jti exp now s a (omega arith),
        ==_refl p.jti,
      )

  module _ (T : Table UserRow same_email) (A : Table AuditRow never_same)
      (compare : ℕ → ℕ → Bool) where
    -- With five counted failures or more every login is refused with 429, whatever the password
    -- is, and the refusal changes nothing, on every server.
    pub login-locked :
        (email : Email) (password : ℕ) (jti : TokenId) (n t : ℕ) (d : T.State) (s : R.State)
        (a : A.State)
        → 5 ≤ n
        → Counts email n t (R.view s)
        → login R T A compare email password jti d (s, a) ≡ (throw too_many, (s, a))
    unfolding login
    login-locked email password jti n t d s a many c =
        ground (arith, R.get_lem (login_fail_key email) s, c)

    let_in-IsLetIn :
        (row : UserRow) (jti : TokenId) (email : Email) (s : R.State) (a : A.State) (password : ℕ)
        (p : JwtPayload)
        → row.status ≡ active
        → compare password row.password_hash ≡ true
        → (let_in R T A compare row jti email s a).0 ≡ ok p
        → IsLetIn compare password p row
    unfolding let_in
    let_in-IsLetIn row jti email s a password p on right e =
        elim (Write-cases
          (A.create (record { user_id = row.id; action = login_action; resource_id = none }) a)) [
            | inl (a', w) ↦ record {
              is_active = on;
              matches = right;
              same_user = ground arith;
              same_roles = ground arith;
            }
            | inr (inl w) ↦ ground arith
            | inr (inr w) ↦ ground arith
          ]

    check_status-IsLetIn :
        (row : UserRow) (password : ℕ) (jti : TokenId) (email : Email) (s : R.State) (a : A.State)
        (p : JwtPayload)
        → (check_status R T A compare row password jti email s a).0 ≡ ok p
        → IsLetIn compare password p row
    unfolding check_status
    check_status-IsLetIn row password jti email s a p e = elim (status-cases row.status) [
      | inr off ↦ ground (arith, off)
      | inl on ↦ elim (Bool-cases (compare password row.password_hash)) [
        | inl right ↦ let_in-IsLetIn row jti email s a password p on right (ground arith)
        | inr wrong ↦ ground arith
      ]
    ]

    -- A login that succeeds is that of the first user with the address, who is active and whose password
    -- it is; the token names this user and the user's roles.
    pub login-IsLetIn :
        (email : Email) (password : ℕ) (jti : TokenId) (d : T.State) (s : R.State) (a : A.State)
        (p : JwtPayload)
        → (login R T A compare email password jti d (s, a)).0 ≡ ok p
        → (row : UserRow) × (find (λ r. r.email == email) (T.rows d) ≡ some row)
          × IsLetIn compare password p row
    unfolding login
    login-IsLetIn email password jti d s a p e =
        elim (Option-cases (find (λ r. r.email == email) (T.rows d))) [
          | inl gone ↦ ground (arith, T.find_first_lem (λ r. r.email == email) d)
          | inr (row, found) ↦ (
            row,
            found,
            check_status-IsLetIn row password jti email s a p
                (ground (arith, T.find_first_lem (λ r. r.email == email) d)),
          )
        ]
