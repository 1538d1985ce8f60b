-- ===== src/Tests/Accounts.antt =====
-- Codes, logins and logouts at concrete inputs.
use kltn_high_concurrency_co.Prelude.{
  ◌≡◌, refl, false, none, some, List, [], ◌∷◌, ◌==◌, arith, find, any,
}
use kltn_high_concurrency_co.Common.Exception.{ok, throw}
use kltn_high_concurrency_co.Redis.{Redis}
use kltn_high_concurrency_co.Redis.Reference.{reference}
use kltn_high_concurrency_co.Prisma.{Table}
use kltn_high_concurrency_co.Prisma.Reference
use kltn_high_concurrency_co.Common.AuditLog.{AuditRow, never_same}
use kltn_high_concurrency_co.Auth.Keys.{schema, active, pending_verify, user, UserRow, same_email}
use kltn_high_concurrency_co.Auth.Service.{
  JwtPayload, too_many, refused, generate_and_store_otp, verify_otp, login, logout, check_status,
  let_in,
}
use kltn_high_concurrency_co.Auth.Codes.{Secrets, IsOpen, after_three, verify_otp-three_wrong}
use kltn_high_concurrency_co.Auth.Sessions.{IsLetIn, login-IsLetIn}
use kltn_high_concurrency_co.Auth.Guard.{can_activate, can_activate-logout}

abbrev pub server : Redis schema
server = reference schema

abbrev pub users_table : Table UserRow same_email
users_table = Reference.reference UserRow same_email

abbrev audit_log : Table AuditRow never_same
audit_log = Reference.reference AuditRow never_same

abbrev pub nothing : Secrets
nothing = record { strings = λ k. none; sets = λ k. []; queues = λ k. [] }

abbrev member : UserRow
member = record { id = 5; email = 50; password_hash = 77; status = active; roles = user ∷ [] }

abbrev pub newcomer : UserRow
newcomer = record {
  id = 6;
  email = 60;
  password_hash = 78;
  status = pending_verify;
  roles = user ∷ [];
}

abbrev pub people : List UserRow
people = member ∷ newcomer ∷ []

abbrev no_rows : List AuditRow
no_rows = []

-- The code 123456 has been sent.
abbrev sent : Secrets
sent = generate_and_store_otp server 60 123456 nothing

sent-IsOpen : IsOpen 60 123456 0 299 sent
unfolding generate_and_store_otp
sent-IsOpen = record { unlocked = refl; waits = refl }

verify_otp-three_wrong_example :
    let w = after_three server users_table 60 123456 299 111111 222222 333333 sent people in
    (w.1 ≡ people)
    × (verify_otp server users_table 60 123456 (server.elapse 60 w.0, w.1)
        ≡ (throw too_many, (server.elapse 60 w.0, w.1)))
verify_otp-three_wrong_example =
    verify_otp-three_wrong server users_table 60 123456 299 111111 222222 333333 123456 60 sent
      people refl refl refl sent-IsOpen (omega arith)

abbrev token : JwtPayload
token = record { sub = 5; jti = 900; email = 50; roles = user ∷ []; status = active }

can_activate-logout_example :
    can_activate server false
      (some token)
      (server.elapse 100 (logout server audit_log 5 900 3600 1000 (nothing, no_rows)).1.0)
    ≡ throw refused
can_activate-logout_example =
    can_activate-logout server audit_log 5 3600 1000 100 token nothing no_rows (omega arith)

member_logs_in :
    (login server users_table audit_log (◌==◌) 50 77 900 people (nothing, no_rows)).0 ≡ ok token
unfolding login check_status let_in find any
member_logs_in = refl

login-IsLetIn_example :
    (row : UserRow) × (find (λ r. r.email == 50) people ≡ some row) × IsLetIn (◌==◌) 77 token row
login-IsLetIn_example =
    login-IsLetIn server users_table audit_log (◌==◌) 50 77 900 people nothing no_rows token
      member_logs_in
