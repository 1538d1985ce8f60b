-- ===== src/Tests/Members.antt =====
-- Users and organizers at concrete inputs.
use kltn_high_concurrency_co.Prelude.{
  ◌≡◌, ◌++◌, refl, false, none, List, [], ◌∷◌, mem, any, find, revise, to_decimal, digits, Text,
  same_codes, arith,
}
use kltn_high_concurrency_co.Common.Exception.{ok, throw, pending}
use kltn_high_concurrency_co.Common.AuditLog.{AuditRow, never_same}
use kltn_high_concurrency_co.Redis.Commands.{Keyspace}
use kltn_high_concurrency_co.Redis.Reference
use kltn_high_concurrency_co.Redis.{Redis}
use kltn_high_concurrency_co.Prisma.{Table}
use kltn_high_concurrency_co.Prisma.Reference.{reference}
use kltn_high_concurrency_co.Prisma.Single.{update_one}
use kltn_high_concurrency_co.Auth.Keys.{active, user}
use kltn_high_concurrency_co.Catalog.{
  left_out, cleared, set_to, pending_review, ProfileRow, EventRow, same_user, same_event_id,
}
use kltn_high_concurrency_co.Users.Keys.{AccountRow, same_address, schema}
use kltn_high_concurrency_co.Users.{
  UpdateProfileDto, locked_out, change_email, request_email_change, verify_email_change,
}
use kltn_high_concurrency_co.Users.Codes.{verify_email_change-request, verify_email_change-bar}
use kltn_high_concurrency_co.Users.Guesses.{IsOpen, after_three, verify_email_change-three_wrong}
use kltn_high_concurrency_co.Users.Addresses.{
  Call, update_call, request_call, verify_call, wait_call, run, IsSound, run-HasEmails,
}
use kltn_high_concurrency_co.Organizer.Rows.{
  SaleRow, same_sale, UpdateOrganizerProfileDto, UpdatedProfile, patch_profile,
}
use kltn_high_concurrency_co.Organizer.{get_owned_profile, update_profile, get_order}
use kltn_high_concurrency_co.Organizer.Sales.{IsOwned, get_order-IsOwned}
use kltn_high_concurrency_co.Organizer.Profile.{update_profile-same_name}
use kltn_high_concurrency_co.Tests.Organizers.{profile, event}

abbrev server : Redis schema
server = Reference.reference schema

abbrev accounts : Table AccountRow same_address
accounts = reference AccountRow same_address

abbrev audit_log : Table AuditRow never_same
audit_log = reference AuditRow never_same

abbrev nothing : Keyspace schema
nothing = record { strings = λ k. none; sets = λ k. []; queues = λ k. [] }

-- "a@b", "c@d" and "e@f"
abbrev first_address : Text
first_address = 97 ∷ 64 ∷ 98 ∷ []

abbrev second_address : Text
second_address = 99 ∷ 64 ∷ 100 ∷ []

abbrev new_address : Text
new_address = 101 ∷ 64 ∷ 102 ∷ []

-- "42" and "7"
abbrev code : Text
code = 52 ∷ 50 ∷ []

abbrev guess : Text
guess = 55 ∷ []

abbrev ann : AccountRow
ann = record {
  id = 5;
  email = first_address;
  full_name = "Ann";
  phone = none;
  avatar_url = none;
  status = active;
  roles = user ∷ [];
}

abbrev people : List AccountRow
people = ann ∷ record ann { id = 6; email = second_address } ∷ []

abbrev no_audit : List AuditRow
no_audit = []

-- The code waits for the new address of user 5.
abbrev waiting_code : Keyspace schema
waiting_code = (request_email_change server accounts 5 new_address code people nothing).1

waiting_code-IsOpen : IsOpen 5 new_address code 0 299 waiting_code
unfolding request_email_change find same_codes to_decimal digits
waiting_code-IsOpen = record { unlocked = refl; waits = refl }

wrong : same_codes guess code ≡ false
unfolding same_codes
wrong = refl

address_plain : mem 124 new_address ≡ false
unfolding mem
address_plain = refl

code_plain : mem 124 code ≡ false
unfolding mem
code_plain = refl

verify_email_change-three_wrong_example :
    let v =
      after_three server accounts audit_log 5 new_address code 299 address_plain code_plain guess
        guess guess
        (waiting_code, (people, no_audit)) in
    (v.1 ≡ (people, no_audit))
    × (verify_email_change server accounts audit_log 5 code (server.elapse 10 v.0, v.1)
        ≡ (throw locked_out, (server.elapse 10 v.0, v.1)))
verify_email_change-three_wrong_example =
    verify_email_change-three_wrong server accounts audit_log 5 new_address code 299 address_plain
      code_plain guess guess guess code 10 waiting_code (people, no_audit) wrong wrong wrong
      waiting_code-IsOpen (omega arith)

requested : (request_email_change server accounts 5 new_address code people nothing).0 ≡ ok tt
unfolding request_email_change find same_codes
requested = refl

verify_email_change-request_example :
    verify_email_change server accounts audit_log 5 code (waiting_code, (people, no_audit))
    ≡ change_email server accounts audit_log 5 new_address (waiting_code, (people, no_audit))
verify_email_change-request_example =
    verify_email_change-request server accounts audit_log 5 new_address code nothing people no_audit
      address_plain code_plain requested

-- "x" and "e@f" on both sides of the bar
abbrev front : Text
front = 120 ∷ []

front_plain : mem 124 front ≡ false
unfolding mem
front_plain = refl

bar_requested :
    (request_email_change server accounts 5 (front ++ (124 ∷ new_address)) code people nothing).0
    ≡ ok tt
unfolding request_email_change find same_codes
bar_requested = refl

verify_email_change-bar_example :
    let s =
      (request_email_change server accounts 5
        (front ++ (124 ∷ new_address))
        code
        people
        nothing).1 in
    verify_email_change server accounts audit_log 5 new_address (s, (people, no_audit))
    ≡ change_email server accounts audit_log 5 front (s, (people, no_audit))
verify_email_change-bar_example =
    verify_email_change-bar server accounts audit_log 5 front new_address code nothing people
      no_audit front_plain address_plain bar_requested

abbrev new_name : UpdateProfileDto
new_name = record { full_name = set_to "Anna"; phone = left_out; avatar_url = cleared }

abbrev week : List (Call server accounts audit_log)
week =
    update_call 5 new_name
    ∷ request_call 5 new_address code
    ∷ wait_call 20
    ∷ verify_call 5 code
    ∷ []

people-IsSound : IsSound server accounts audit_log people
unfolding any same_codes
people-IsSound = ((refl, (refl, tt)), (refl, (refl, tt)))

run-HasEmails_example :
    IsSound server accounts audit_log
      (run server accounts audit_log week (nothing, (people, no_audit))).1.0
run-HasEmails_example =
    run-HasEmails server accounts audit_log week (nothing, (people, no_audit)) people-IsSound

abbrev profiles : Table ProfileRow same_user
profiles = reference ProfileRow same_user

abbrev events : Table EventRow same_event_id
events = reference EventRow same_event_id

abbrev known : List ProfileRow
known = profile ∷ []

abbrev same_name : UpdateOrganizerProfileDto
same_name = record {
  org_name = set_to "Live";
  description = left_out;
  logo_url = left_out;
  banner_url = left_out;
  website = left_out;
  contact_email = left_out;
  contact_phone = left_out;
}

abbrev reviewed : UpdatedProfile
reviewed = record { updated = patch_profile same_name profile; note = false }

organizer_is_there : get_owned_profile profiles events 5 known ≡ ok profile
unfolding get_owned_profile find
organizer_is_there = refl

profile_updated : (update_profile profiles events 5 same_name known).0 ≡ ok reviewed
unfolding update_profile get_owned_profile update_one find revise
profile_updated = refl

update_profile-same_name_example :
    (reviewed.note ≡ false) × (reviewed.updated.status ≡ pending_review)
update_profile-same_name_example =
    update_profile-same_name profiles events 5 same_name known profile reviewed organizer_is_there
      refl profile_updated

abbrev sales : Table SaleRow same_sale
sales = reference SaleRow same_sale

abbrev sale : SaleRow
sale = record {
  id = 90;
  user_id = 6;
  event_id = 1;
  status = pending;
  total_amount = 5000;
  created_at = 7000;
  ticket_type_ids = 70 ∷ [];
}

sale_read : get_order profiles events sales 5 90 known (event ∷ []) (sale ∷ []) ≡ ok sale
unfolding get_order get_owned_profile find
sale_read = refl

get_order-IsOwned_example :
    (sale.id ≡ 90) × IsOwned profiles events 5 sale.event_id known (event ∷ [])
get_order-IsOwned_example =
    get_order-IsOwned profiles events sales 5 90 known (event ∷ []) (sale ∷ []) sale sale_read
