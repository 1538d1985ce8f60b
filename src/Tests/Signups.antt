-- ===== src/Tests/Signups.antt =====
-- Registrations at concrete inputs.
use kltn_high_concurrency_co.Prelude.{◌≡◌, ◌⊎◌, refl, some, none, List, [], find, any, revise}
use kltn_high_concurrency_co.Common.Exception.{ok, throw, error}
use kltn_high_concurrency_co.Prisma.{Table}
use kltn_high_concurrency_co.Prisma.Reference.{reference}
use kltn_high_concurrency_co.Auth.Keys.{otp_key, otp_resend_key, RoleName, UserRow}
use kltn_high_concurrency_co.Auth.Service.{pending_user, activate_row, verify_otp}
use kltn_high_concurrency_co.Auth.Codes.{IsOpen, Secrets}
use kltn_high_concurrency_co.Auth.Registration.{
  same_role, by_email, register, upsert_role, assign_role,
}
use kltn_high_concurrency_co.Auth.Confirmation.{verify_otp-register, register-again}
use kltn_high_concurrency_co.Tests.Accounts.{server, users_table, nothing, people, newcomer}

abbrev roles : Table RoleName same_role
roles = reference RoleName same_role

abbrev no_roles : List RoleName
no_roles = []

abbrev signed_up : Secrets × (List UserRow × List RoleName)
signed_up = (register server users_table roles 7 70 79 654321 (nothing, (people, no_roles))).1

answered :
    (register server users_table roles 7 70 79 654321 (nothing, (people, no_roles))).0 ≡ ok tt
unfolding register find any assign_role upsert_role
answered = refl

verify_otp-register_example :
    ((users_table.update_many (pending_user 70) activate_row signed_up.1.0 ≡ none)
      × (verify_otp server users_table 70 654321 (signed_up.0, signed_up.1.0)
          ≡ (throw error, (signed_up.0, signed_up.1.0))))
    ⊎ (((verify_otp server users_table 70 654321 (signed_up.0, signed_up.1.0)).0 ≡ ok tt)
        × ((verify_otp server users_table 70 654321 (signed_up.0, signed_up.1.0)).1.1
            ≡ revise (pending_user 70) activate_row signed_up.1.0)
        × ((verify_otp server users_table 70 654321 (signed_up.0, signed_up.1.0)).1.0.strings
              (otp_key 70)
            ≡ none))
verify_otp-register_example =
    verify_otp-register server users_table roles 7 70 79 654321 (nothing, (people, no_roles)) refl
      answered

newcomer_waits : find (by_email 60) people ≡ some newcomer
unfolding find
newcomer_waits = refl

register-again_example :
    (s : Secrets) × (register server users_table roles 8 60 80 222222 (nothing, (people, no_roles))
      ≡ (ok tt, (s, (people, no_roles))))
    × IsOpen 60 222222 0 299 s
    × (s.strings (otp_resend_key 60) ≡ nothing.strings (otp_resend_key 60))
register-again_example =
    register-again server users_table roles 8 60 80 222222 nothing (people, no_roles) newcomer
      newcomer_waits refl refl
