-- ===== src/Auth/Keys.antt =====
-- The keys and the values that auth/auth.service.ts keeps on the Redis server, and the rows of users.
use kltn_high_concurrency_co.Prelude.{ℕ, Bool, true, false, Option, none, List, ◌==◌}
use kltn_high_concurrency_co.Common.Ids.{UserId}
use kltn_high_concurrency_co.Redis.Commands.{Schema}

-- Addresses and token ids are only compared.
abbrev pub Email : Type 0
Email = ℕ

abbrev pub TokenId : Type 0
TokenId = ℕ

-- `otp:{email}`, `otp:lock:{email}`, `otp:resend:{email}`, `login:fail:{email}` and
-- `blacklist:token:{jti}`
pub data AuthKey : Type 0 where
  otp_key otp_lock_key otp_resend_key login_fail_key : Email → AuthKey
  blacklist_key : TokenId → AuthKey

abbrev pub same_auth : AuthKey → AuthKey → Bool
same_auth (otp_key a) (otp_key b) = a == b
same_auth (otp_lock_key a) (otp_lock_key b) = a == b
same_auth (otp_resend_key a) (otp_resend_key b) = a == b
same_auth (login_fail_key a) (login_fail_key b) = a == b
same_auth (blacklist_key a) (blacklist_key b) = a == b
same_auth _ _ = false

-- A value is the text `{number}`, or `{number}:{attempts}`.
pub record AuthValue : Type 0 where
  pub number : ℕ
  pub attempts : Option ℕ

abbrev pub counter : ℕ → AuthValue
counter n = record { number = n; attempts = none }

abbrev pub schema : Schema
schema = record {
  StringKey = AuthKey;
  SetKey = ⊥;
  QueueKey = ⊥;
  Value = AuthValue;
  same_string = same_auth;
  same_set = λ a b. true;
  same_queue = λ a b. true;
  to_count = λ v. v.number;
  of_count = counter;
}

pub data UserStatus : Type 0 where
  pending_verify active locked : UserStatus

pub data RoleName : Type 0 where
  user organizer admin : RoleName

-- A user with the names of the roles that `login` includes.
pub record UserRow : Type 0 where
  pub id : UserId
  pub email : Email
  pub password_hash : ℕ
  pub status : UserStatus
  pub roles : List RoleName

-- `email` is unique.
abbrev pub same_email : UserRow → UserRow → Bool
same_email r s = r.email == s.email

abbrev pub is_pending_verify : UserStatus → Bool
is_pending_verify pending_verify = true
is_pending_verify _ = false
