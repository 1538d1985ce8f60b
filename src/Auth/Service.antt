-- ===== src/Auth/Service.antt =====
-- auth/auth.service.ts and `JwtStrategy.validate`. bcrypt and the signing of tokens are third-party
-- code: the test of a password is a parameter, and a login answers the payload that is signed. The code
-- that is drawn, the token id and the clock come in as arguments.
use kltn_high_concurrency_co.Prelude.{
  ℕ, suc, ◌+◌, ◌-◌, Bool, ◌&&◌, Option, none, some, List, ◌==◌, leb, ltb, if◌then◌else◌, ℤ, pos,
}
use kltn_high_concurrency_co.Common.Ids.{UserId}
use kltn_high_concurrency_co.Common.Exception.{
  Exception, Result, ok, throw, error, http_exception, bad_request, unauthorized, too_many_requests,
}
use kltn_high_concurrency_co.Common.Action.{Action}
use kltn_high_concurrency_co.Common.AuditLog.{AuditRow, never_same, login_action, logout_action}
use kltn_high_concurrency_co.Redis.{Redis}
use kltn_high_concurrency_co.Prisma.{done, p2002, rejected, Table}
use kltn_high_concurrency_co.Redis.Client.{set_for}
use kltn_high_concurrency_co.Auth.Keys.{
  Email, TokenId, AuthKey, otp_key, otp_lock_key, otp_resend_key, login_fail_key, blacklist_key,
  AuthValue, counter, schema, UserStatus, pending_verify, active, locked, RoleName, UserRow,
  same_email, is_pending_verify,
}

abbrev pub otp_ttl : ℕ
otp_ttl = 300

abbrev pub otp_lock_ttl : ℕ
otp_lock_ttl = 900

abbrev pub otp_max_attempts : ℕ
otp_max_attempts = 3

abbrev pub otp_max_resends : ℕ
otp_max_resends = 3

abbrev pub login_max_fails : ℕ
login_max_fails = 5

abbrev pub login_lock_ttl : ℕ
login_lock_ttl = 900

-- What a login signs.
pub record JwtPayload : Type 0 where
  pub sub : UserId
  pub jti : TokenId
  pub email : Email
  pub roles : List RoleName
  pub status : UserStatus

-- An exception of @nestjs/common without a code.
abbrev pub too_many : Exception
too_many = http_exception too_many_requests none

abbrev pub refused : Exception
refused = http_exception unauthorized none

-- remainingTtl > 0 ? remainingTtl : OTP_TTL
abbrev pub remaining_or_full : ℤ → ℕ
remaining_or_full (pos (suc n)) = suc n
remaining_or_full _ = otp_ttl

abbrev pub pending_user : Email → UserRow → Bool
pending_user email row = row.email == email && is_pending_verify row.status

abbrev pub activate_row : UserRow → UserRow
activate_row row = record row { status = active }

module _ (R : Redis schema) where
  -- `generateAndStoreOtp`, with the code that is drawn
  unfoldable pub generate_and_store_otp : Email → ℕ → R.State → R.State
  generate_and_store_otp email otp =
      set_for R (otp_key email) (record { number = otp; attempts = some 0 }) otp_ttl

  -- `incrementLoginFail`
  unfoldable pub increment_login_fail : AuthKey → R.State → R.State
  increment_login_fail key s =
      let (count, s') = R.incr key s in if count == 1 then R.expire key login_lock_ttl s' else s'

  -- `verifyOtp`, when the code is wrong; attempts that are no number are never too many
  abbrev pub keep_trying : Email → AuthValue → Option ℕ → R.State → R.State
  keep_trying email stored attempts s =
      set_for R (otp_key email) (record { number = stored.number; attempts = attempts })
        (remaining_or_full (R.ttl (otp_key email) s)) s

  unfoldable pub wrong_otp : Email → AuthValue → R.State → Exception × R.State
  wrong_otp email stored s = elim stored.attempts [
    | none ↦ (refused, keep_trying email stored none s)
    | some attempts ↦
        if leb otp_max_attempts (attempts + 1)
        then (
          too_many,
          set_for R (otp_lock_key email) (counter 1) otp_lock_ttl (R.del (otp_key email) s),
        )
        else (refused, keep_trying email stored (some (attempts + 1)) s)
  ]

  -- `JwtStrategy.validate`
  unfoldable pub validate : JwtPayload → Action R.State JwtPayload
  validate payload s =
      (if R.exists (blacklist_key payload.jti) s then throw refused else ok payload, s)

  module _ (T : Table UserRow same_email) where
    unfoldable pub activate : Email → Action (R.State × T.State) (Unit {0})
    activate email (s, d) = elim (T.update_many (pending_user email) activate_row d) [
      | none ↦ (throw error, (s, d))
      | some (count, d') ↦ (ok tt, (R.del (otp_key email) s, d'))
    ]

    abbrev throwing : Exception × R.State → T.State → Result (Unit {0}) × (R.State × T.State)
    throwing (err, s) d = (throw err, (s, d))

    -- `verifyOtp`
    unfoldable pub verify_otp : Email → ℕ → Action (R.State × T.State) (Unit {0})
    unfolding activate wrong_otp
    verify_otp email otp (s, d) =
        let attempt : Result (Unit {0}) × (R.State × T.State) = elim (R.get (otp_key email) s) [
          | none ↦ (throw (http_exception bad_request none), (s, d))
          | some stored ↦
              if stored.number == otp
              then activate email (s, d)
              else throwing (wrong_otp email stored s) d
        ] in
        if R.exists (otp_lock_key email) s then (throw too_many, (s, d)) else attempt

    -- the end of `resendOtp`, for a user who is pending
    unfoldable pub send_again : Email → ℕ → R.State → Result (Unit {0}) × R.State
    unfolding generate_and_store_otp
    send_again email otp s =
        let (count, s1) = R.incr (otp_resend_key email) s in
        let s2 = if count == 1 then R.expire (otp_resend_key email) otp_lock_ttl s1 else s1 in
        if ltb otp_max_resends count
        then (throw too_many, set_for R (otp_lock_key email) (counter 1) otp_lock_ttl s2)
        else (ok tt, generate_and_store_otp email otp s2)

    abbrev beside : Result (Unit {0}) × R.State → T.State → Result (Unit {0}) × (R.State × T.State)
    beside (r, s) d = (r, (s, d))

    -- `resendOtp`
    unfoldable pub resend_otp : Email → ℕ → Action (R.State × T.State) (Unit {0})
    unfolding send_again
    resend_otp email otp (s, d) =
        let attempt : Result (Unit {0}) × (R.State × T.State) =
          elim (T.find_first (λ row. row.email == email) d) [
            | none ↦ (ok tt, (s, d))
            | some found ↦
                if is_pending_verify found.status
                then beside (send_again email otp s) d
                else (ok tt, (s, d))
          ] in
        if R.exists (otp_lock_key email) s then (throw too_many, (s, d)) else attempt

    module _ (A : Table AuditRow never_same) (compare : ℕ → ℕ → Bool) where
      -- the end of `login`, for a password that is right
      unfoldable pub let_in :
          UserRow → TokenId → Email → R.State → A.State → Result JwtPayload × (R.State × A.State)
      let_in found jti email s a =
          let s' = R.del (login_fail_key email) s in
          elim (A.create (record { user_id = found.id; action = login_action; resource_id = none })
            a) [
              | done a' ↦ (
                ok (record {
                  sub = found.id;
                  jti = jti;
                  email = found.email;
                  roles = found.roles;
                  status = found.status;
                }),
                (s', a'),
              )
              | p2002 ↦ (throw error, (s', a))
              | rejected ↦ (throw error, (s', a))
            ]

      abbrev fails : Option AuthValue → ℕ
      fails none = 0
      fails (some v) = v.number

      unfoldable pub check_status :
          UserRow
          → ℕ
          → TokenId
          → Email
          → R.State
          → A.State
          → Result JwtPayload × (R.State × A.State)
      unfolding let_in increment_login_fail
      check_status found password jti email s a = elim found.status [
        | locked ↦ (throw refused, (s, a))
        | pending_verify ↦ (throw refused, (s, a))
        | active ↦
            if compare password found.password_hash
            then let_in found jti email s a
            else (throw refused, (increment_login_fail (login_fail_key email) s, a))
      ]

      -- `login`; the table of users is only read
      unfoldable pub login : Email → ℕ → TokenId → T.State → Action (R.State × A.State) JwtPayload
      unfolding check_status
      login email password jti d (s, a) =
          let attempt : Result JwtPayload × (R.State × A.State) =
            elim (T.find_first (λ row. row.email == email) d) [
              | none ↦ (throw refused, (increment_login_fail (login_fail_key email) s, a))
              | some found ↦ check_status found password jti email s a
            ] in
          if leb login_max_fails (fails (R.get (login_fail_key email) s))
          then (throw too_many, (s, a))
          else attempt

  -- `logout`; `exp` and `now` are seconds
  unfoldable pub logout :
      (A : Table AuditRow never_same)
      → UserId
      → TokenId
      → ℕ
      → ℕ
      → Action (R.State × A.State) (Unit {0})
  logout A user_id jti exp now (s, a) =
      let s' = if ltb now exp then set_for R (blacklist_key jti) (counter 1) (exp - now) s else s in
      elim (A.create (record { user_id = user_id; action = logout_action; resource_id = none }) a) [
        | done a' ↦ (ok tt, (s', a'))
        | p2002 ↦ (throw error, (s', a))
        | rejected ↦ (throw error, (s', a))
      ]
