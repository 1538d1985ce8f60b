-- ===== src/Users.antt =====
-- users/users.service.ts: the profile of a user and the change of the address. The code that is drawn
-- comes in as an argument.
pub mod Keys
pub mod Guards
pub mod Codes
pub mod Guesses
pub mod Addresses
use kltn_high_concurrency_co.Prelude.{
  ℕ, suc, Bool, true, false, ◌&&◌, ◌||◌, not, Option, none, some, List, [], ◌∷◌, ◌==◌,
  if◌then◌else◌, String, ℤ, pos, Text, same_codes, split,
}
use kltn_high_concurrency_co.Common.Ids.{UserId}
use kltn_high_concurrency_co.Common.Exception.{
  Exception, Result, ok, throw, error, http_exception, bad_request, unauthorized, not_found,
  conflict, too_many_requests,
}
use kltn_high_concurrency_co.Common.Action.{Action}
use kltn_high_concurrency_co.Common.AuditLog.{
  update_profile_action, change_email_action, AuditRow, never_same, answer_with_audit,
}
use kltn_high_concurrency_co.Redis.{Redis}
use kltn_high_concurrency_co.Redis.Client.{set_for}
use kltn_high_concurrency_co.Prisma.{done, p2002, rejected, Table}
use kltn_high_concurrency_co.Prisma.Single.{update_one}
use kltn_high_concurrency_co.Catalog.{Field, is_given, is_cleared, written, written_or_none, plain}
use Keys.{
  AccountRow, same_address, by_user_id, by_email, change_key, change_lock_key, schema, bar,
  parse_int, next, is_last, to_text, message, part, is_blank,
}

abbrev pub email_change_otp_ttl : ℕ
email_change_otp_ttl = 300

abbrev pub email_change_lock_ttl : ℕ
email_change_lock_ttl = 900

pub record UpdateProfileDto : Type 0 where
  pub full_name : Field String
  pub phone : Field String
  pub avatar_url : Field String

abbrev pub has_fields : UpdateProfileDto → Bool
has_fields dto = is_given dto.full_name || is_given dto.phone || is_given dto.avatar_url

abbrev pub patch_account : UpdateProfileDto → AccountRow → AccountRow
patch_account dto row = record row {
  full_name = written dto.full_name row.full_name;
  phone = written_or_none dto.phone row.phone;
  avatar_url = written_or_none dto.avatar_url row.avatar_url;
}

abbrev pub set_email : Text → AccountRow → AccountRow
set_email email row = record row { email = email }

-- remainingTtl > 0 ? remainingTtl : EMAIL_CHANGE_OTP_TTL
abbrev pub remaining_or_full : ℤ → ℕ
remaining_or_full (pos (suc n)) = suc n
remaining_or_full _ = email_change_otp_ttl

abbrev pub locked_out : Exception
locked_out = http_exception too_many_requests none

module _ (R : Redis schema) (T : Table AccountRow same_address) where
  -- `getProfile`
  unfoldable pub get_profile : UserId → T.State → Result AccountRow
  get_profile user_id d = elim (T.find_first (by_user_id user_id) d) [
    | none ↦ plain not_found
    | some row ↦ ok row
  ]

  unfoldable pub request_email_change : UserId → Text → Text → T.State → Action R.State (Unit {0})
  request_email_change user_id new_email otp d s =
      if R.exists (change_lock_key user_id) s
      then (throw locked_out, s)
      else elim (T.find_first (by_email new_email) d) [
        | some row ↦ (plain conflict, s)
        | none ↦ (
          ok tt,
          set_for R (change_key user_id) (message new_email otp (48 ∷ [])) email_change_otp_ttl s,
        )
      ]

  -- `verifyEmailChange`, when the code is wrong
  unfoldable pub wrong_otp : UserId → Text → Text → Option ℤ → R.State → Exception × R.State
  wrong_otp user_id new_email code attempts s =
      if is_last (next attempts)
      then (
        locked_out,
        set_for R (change_lock_key user_id) (49 ∷ []) email_change_lock_ttl
            (R.del (change_key user_id) s),
      )
      else (
        http_exception unauthorized none,
        set_for R (change_key user_id) (message new_email code (to_text (next attempts)))
            (remaining_or_full (R.ttl (change_key user_id) s)) s,
      )

  module _ (A : Table AuditRow never_same) where
    unfoldable pub update_profile :
        UserId → UpdateProfileDto → Action (T.State × A.State) AccountRow
    update_profile user_id dto (d, a) =
        if has_fields dto
        then (if is_cleared dto.full_name
            then (throw error, (d, a))
            else let (updated, d') = update_one T (by_user_id user_id) (patch_account dto) d in
              elim updated [
                | throw x ↦ (throw x, (d', a))
                | ok row ↦
                    let (logged, after) =
                      answer_with_audit A
                        (record {
                          user_id = user_id;
                          action = update_profile_action;
                          resource_id = some user_id;
                        })
                        tt d' a in
                    elim logged [
                      | throw x ↦ (throw x, after)
                      | ok written ↦ (get_profile user_id after.0, after)
                    ]
              ])
        else (plain bad_request, (d, a))

    -- `verifyEmailChange`, when the code is right
    unfoldable pub change_email : UserId → Text → Action (R.State × (T.State × A.State)) (Unit {0})
    change_email user_id new_email (s, (d, a)) = elim (T.find_first (by_email new_email) d) [
      | some row ↦ (plain conflict, (R.del (change_key user_id) s, (d, a)))
      | none ↦
          let (updated, d') = update_one T (by_user_id user_id) (set_email new_email) d in
          elim updated [
            | throw x ↦ (throw x, (s, (d', a)))
            | ok row ↦
                let (logged, after) =
                  answer_with_audit A
                    (record {
                      user_id = user_id;
                      action = change_email_action;
                      resource_id = some user_id;
                    })
                    tt d' a in
                elim logged [
                  | throw x ↦ (throw x, (s, after))
                  | ok written ↦ (ok tt, (R.del (change_key user_id) s, after))
                ]
          ]
    ]

    unfoldable pub verify_email_change :
        UserId → Text → Action (R.State × (T.State × A.State)) (Unit {0})
    verify_email_change user_id otp (s, (d, a)) =
        if R.exists (change_lock_key user_id) s
        then (throw locked_out, (s, (d, a)))
        else elim (R.get (change_key user_id) s) [
          | none ↦ (plain bad_request, (s, (d, a)))
          | some stored ↦
              let parts = split bar stored in
              if is_blank stored
              then (plain bad_request, (s, (d, a)))
              else (if same_codes otp (part 1 parts)
                  then change_email user_id (part 0 parts) (s, (d, a))
                  else (let (x, s') =
                        wrong_otp user_id (part 0 parts) (part 1 parts) (parse_int (part 2 parts))
                          s in
                      (throw x, (s', (d, a)))))
        ]
