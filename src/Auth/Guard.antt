-- ===== src/Auth/Guard.antt =====
-- common/guards/jwt-auth.guard.ts: which requests pass. Passport, which reads the token of a request and checks
-- its signature and its end, is third-party code: its answer, the payload if the token is good, is an argument.
use kltn_high_concurrency_co.Prelude.{
  ℕ, ◌-◌, ◌<◌, ◌≡◌, ◌⊎◌, refl, inl, inr, Bool, false, Option, none, some, arith, if◌then◌else◌,
  Bool-cases,
}
use kltn_high_concurrency_co.Common.Exception.{Exception, Result, ok, throw}
use kltn_high_concurrency_co.Redis.{Redis}
use kltn_high_concurrency_co.Auth.Keys.{blacklist_key, schema}
use kltn_high_concurrency_co.Common.AuditLog.{AuditRow, never_same}
use kltn_high_concurrency_co.Prisma.{Table}
use kltn_high_concurrency_co.Auth.Service.{JwtPayload, refused, validate, logout}
use kltn_high_concurrency_co.Auth.Sessions.{validate-logout}
use kltn_high_concurrency_co.Common.Ids.{UserId}

-- `handleRequest`
unfoldable pub handle_request : Option Exception → Option JwtPayload → Result JwtPayload
handle_request (some err) user = throw err
handle_request none none = throw refused
handle_request none (some user) = ok user

module _ (R : Redis schema) where
  -- the strategy validates the payload of a good token, and the guard settles what comes of it
  unfoldable pub authenticate : Option JwtPayload → R.State → Result JwtPayload
  authenticate none s = handle_request none none
  authenticate (some payload) s = elim (validate R payload s).0 [
    | ok user ↦ handle_request none (some user)
    | throw err ↦ handle_request (some err) none
  ]

  -- `canActivate`: a public route lets everybody in, without a user
  unfoldable pub can_activate : Bool → Option JwtPayload → R.State → Result (Option JwtPayload)
  can_activate is_public token s =
      if is_public
      then ok none
      else elim (authenticate token s) [ ok user ↦ ok (some user) | throw err ↦ throw err ]

  -- A route that is not public is passed only with a good token that is not revoked, as its user; all else is refused
  -- with 401.
  pub can_activate-answers :
      (token : Option JwtPayload) (s : R.State)
      → (can_activate false token s ≡ throw refused)
        ⊎ ((user : JwtPayload) × (token ≡ some user)
            × (R.exists (blacklist_key user.jti) s ≡ false)
            × (can_activate false token s ≡ ok (some user)))
  unfolding can_activate authenticate handle_request validate
  can_activate-answers none s = inl refl
  can_activate-answers (some user) s = elim (Bool-cases (R.exists (blacklist_key user.jti) s)) [
    | inl revoked ↦ inl (ground (arith, revoked))
    | inr free ↦ inr (user, refl, free, ground (arith, free))
  ]

  -- After a logout, and until the token would have ended, the guard of a route that is not public refuses the token
  -- with 401, although it is well signed, on every server, also when the audit row of the logout cannot be written.
  pub can_activate-logout :
      (A : Table AuditRow never_same) (u : UserId) (exp now n : ℕ) (p : JwtPayload) (s : R.State)
      (a : A.State)
      → n < exp - now
      → can_activate false (some p) (R.elapse n (logout R A u p.jti exp now (s, a)).1.0)
        ≡ throw refused
  unfolding can_activate authenticate handle_request
  can_activate-logout A u exp now n p s a early =
      ground (arith, validate-logout R A u exp now n p s a early)
