-- ===== src/Users/Keys.antt =====
-- users/users.service.ts: the rows of users that the service reads and writes, and the texts that it
-- keeps on the Redis server. Addresses and codes are lists of UTF-16 code units.
use kltn_high_concurrency_co.Prelude.{
  ℕ, zero, suc, Bool, true, false, ◌&&◌, Option, none, some, List, [], ◌∷◌, ◌++◌, leb, ◌==◌,
  if◌then◌else◌, String, ℤ, pos, negsuc, Text, same_codes, to_decimal, number_of,
}
use kltn_high_concurrency_co.Common.Ids.{UserId}
use kltn_high_concurrency_co.Redis.Commands.{Schema}
use kltn_high_concurrency_co.Auth.Keys.{UserStatus, RoleName}

pub record AccountRow : Type 0 where
  pub id : UserId
  pub email : Text
  pub full_name : String
  pub phone : Option String
  pub avatar_url : Option String
  pub status : UserStatus
  pub roles : List RoleName

-- `email` is unique.
abbrev pub same_address : AccountRow → AccountRow → Bool
same_address r s = same_codes r.email s.email

abbrev pub by_user_id : UserId → AccountRow → Bool
by_user_id id row = row.id == id

abbrev pub by_email : Text → AccountRow → Bool
by_email email row = same_codes row.email email

-- `otp:email-change:{userId}` and `otp:email-change:{userId}:lock`
pub data UserKey : Type 0 where
  change_key change_lock_key : UserId → UserKey

abbrev pub same_key : UserKey → UserKey → Bool
same_key (change_key a) (change_key b) = a == b
same_key (change_lock_key a) (change_lock_key b) = a == b
same_key _ _ = false

-- The service uses no counters.
abbrev pub schema : Schema
schema = record {
  StringKey = UserKey;
  SetKey = ⊥;
  QueueKey = ⊥;
  Value = Text;
  same_string = same_key;
  same_set = λ a b. true;
  same_queue = λ a b. true;
  to_count = number_of 0;
  of_count = to_decimal;
}

-- the code unit of '|'
abbrev pub bar : ℕ
bar = 124

-- The digits that a text starts with.
unfoldable pub leading_digits : Text → Text
leading_digits [] = []
leading_digits (c ∷ cs) =
    let rest = leading_digits cs in if leb 48 c && leb c 57 then c ∷ rest else []

abbrev of_digits : Text → Option ℕ
of_digits [] = none
of_digits (c ∷ cs) = some (number_of 0 (c ∷ cs))

abbrev negative : Option ℕ → Option ℤ
negative none = none
negative (some zero) = some (pos 0)
negative (some (suc n)) = some (negsuc n)

abbrev positive : Option ℕ → Option ℤ
positive none = none
positive (some n) = some (pos n)

-- `parseInt(text, 10)` of a text without leading white space; `none` is NaN
unfoldable pub parse_int : Text → Option ℤ
parse_int [] = none
parse_int (c ∷ cs) =
    if c == 45
    then negative (of_digits (leading_digits cs))
    else (if c == 43
        then positive (of_digits (leading_digits cs))
        else positive (of_digits (leading_digits (c ∷ cs))))

-- attempts + 1
abbrev pub next : Option ℤ → Option ℤ
next none = none
next (some (pos n)) = some (pos (suc n))
next (some (negsuc zero)) = some (pos 0)
next (some (negsuc (suc n))) = some (negsuc n)

-- newAttempts >= EMAIL_CHANGE_OTP_MAX_ATTEMPTS
abbrev pub is_last : Option ℤ → Bool
is_last (some (pos n)) = leb 3 n
is_last _ = false

-- a number in a template
abbrev pub to_text : Option ℤ → Text
to_text none = 78 ∷ 97 ∷ 78 ∷ []
to_text (some (pos n)) = to_decimal n
to_text (some (negsuc n)) = 45 ∷ to_decimal (suc n)

-- `${newEmail}|${code}|${attempts}`
abbrev pub message : Text → Text → Text → Text
message new_email code attempts = new_email ++ (bar ∷ (code ++ (bar ∷ attempts)))

-- `!stored`, of a text
abbrev pub is_blank : Text → Bool
is_blank [] = true
is_blank (c ∷ cs) = false

-- const [newEmail, code, attemptsStr] = stored.split('|'); every text that the service stores has three parts
abbrev pub part : ℕ → List Text → Text
part i [] = []
part zero (w ∷ ws) = w
part (suc i) (w ∷ ws) = part i ws
