-- ===== src/Users/Codes.antt =====
-- The code that confirms a new address: how often it can be guessed, and which code is asked for.
use mathlib.Core.List.{append_assoc}
use kltn_high_concurrency_co.Prelude.{
  ◌≡◌, ◌∙◌, refl, ap, true, false, some, List, [], ◌∷◌, ◌++◌, arith, mem, ==_refl, Bool-cases,
  Option-cases, inl, inr, Text, same_codes, same_codes_refl, split, split-append,
}
use kltn_high_concurrency_co.Common.Ids.{UserId}
use kltn_high_concurrency_co.Common.Exception.{ok, throw}
use kltn_high_concurrency_co.Common.AuditLog.{AuditRow, never_same}
use kltn_high_concurrency_co.Redis.{Redis}
use kltn_high_concurrency_co.Prisma.{Table}
use kltn_high_concurrency_co.Users.Keys.{
  AccountRow, same_address, by_email, change_key, change_lock_key, schema, bar, is_blank, parse_int,
  message,
}
use kltn_high_concurrency_co.Users.{
  wrong_otp, change_email, request_email_change, verify_email_change,
}

pub message_full : (email code tail : Text) → is_blank (message email code tail) ≡ false
message_full [] code tail = refl
message_full (c ∷ email) code tail = refl

-- Texts without a bar come back as the parts of what is stored.
pub split-message :
    (email code tail : Text)
    → mem bar email ≡ false
    → mem bar code ≡ false
    → split bar (message email code tail) ≡ email ∷ code ∷ split bar tail
split-message email code tail plain_email plain_code =
    split-append bar email (code ++ (bar ∷ tail)) plain_email
    ∙ ap (λ ws. email ∷ ws) (split-append bar code tail plain_code)

module _ (R : Redis schema) (T : Table AccountRow same_address) (A : Table AuditRow never_same)
    (u : UserId) where
  -- The text waits and the user is not locked.
  abbrev Waits : Text → R.State → Type 0
  Waits stored s = (R.exists (change_lock_key u) s ≡ false) × (R.get (change_key u) s ≡ some stored)

  pub verify-wrong :
      (email code tail otp : Text) (rest : List Text) (s : R.State) (w : T.State × A.State)
      (stored : Text)
      → is_blank stored ≡ false
      → split bar stored ≡ email ∷ code ∷ tail ∷ rest
      → same_codes otp code ≡ false
      → Waits stored s
      → verify_email_change R T A u otp (s, w) ≡ (
        throw (wrong_otp R T u email code (parse_int tail) s).0,
        ((wrong_otp R T u email code (parse_int tail) s).1, w),
      )
  unfolding verify_email_change
  verify-wrong email code tail otp rest s (d, a) stored full parts wrong (opened, waits) =
      rw (verify_email_change, opened, waits, full, parts, wrong) refl

  verify-right :
      (email code otp : Text) (rest : List Text) (s : R.State) (w : T.State × A.State)
      (stored : Text)
      → is_blank stored ≡ false
      → split bar stored ≡ email ∷ code ∷ rest
      → same_codes otp code ≡ true
      → Waits stored s
      → verify_email_change R T A u otp (s, w) ≡ change_email R T A u email (s, w)
  unfolding verify_email_change
  verify-right email code otp rest s (d, a) stored full parts right (opened, waits) =
      rw (verify_email_change, opened, waits, full, parts, right) refl

  -- what a request that succeeds leaves
  requested :
      (email otp : Text) (d : T.State) (s : R.State)
      → (request_email_change R T u email otp d s).0 ≡ ok tt
      → Waits (message email otp (48 ∷ [])) (request_email_change R T u email otp d s).1
  unfolding request_email_change
  requested email otp d s h = elim (Bool-cases (R.exists (change_lock_key u) s)) [
    | inl locked ↦ absurd (ground (arith, h, locked))
    | inr opened ↦ elim (Option-cases (T.find_first (by_email email) d)) [
      | inr (row, used) ↦ absurd (ground (arith, h, opened, used))
      | inl free ↦
          let text = message email otp (48 ∷ []) in
          let s' = R.set_ex (change_key u) text 300 s in
          let seen = R.view-set_ex (change_key u) text 300 s (omega arith) in
          rw (request_email_change, opened, free)
            (
              ground (
                arith,
                R.exists_lem (change_lock_key u) s',
                R.exists_lem (change_lock_key u) s,
                seen,
                opened,
              ),
              ground (arith, R.get_lem (change_key u) s', seen, ==_refl u),
            )
    ]
  ]

  -- After a request that succeeds for an address without a bar, with a code without one, the code that was drawn
  -- confirms: it goes on to change the address to the one requested.
  pub verify_email_change-request :
      (email otp : Text) (s : R.State) (d : T.State) (a : A.State)
      → mem bar email ≡ false
      → mem bar otp ≡ false
      → (request_email_change R T u email otp d s).0 ≡ ok tt
      → let s' = (request_email_change R T u email otp d s).1 in
        verify_email_change R T A u otp (s', (d, a)) ≡ change_email R T A u email (s', (d, a))
  verify_email_change-request email otp s d a plain_email plain_otp h =
      verify-right email otp otp (split bar (48 ∷ [])) (request_email_change R T u email otp d s).1
        (d, a) (message email otp (48 ∷ [])) (message_full email otp (48 ∷ []))
        (split-message email otp (48 ∷ []) plain_email plain_otp) (same_codes_refl otp)
        (requested email otp d s h)

  -- After a request that succeeds for an address that has a bar, the part of the address behind the bar confirms as
  -- well as a code would, whatever code was drawn: the address is changed to the part before the bar.
  pub verify_email_change-bar :
      (front back otp : Text) (s : R.State) (d : T.State) (a : A.State)
      → mem bar front ≡ false
      → mem bar back ≡ false
      → (request_email_change R T u (front ++ (bar ∷ back)) otp d s).0 ≡ ok tt
      → let s' = (request_email_change R T u (front ++ (bar ∷ back)) otp d s).1 in
        verify_email_change R T A u back (s', (d, a)) ≡ change_email R T A u front (s', (d, a))
  verify_email_change-bar front back otp s d a plain_front plain_back h =
      let email = front ++ (bar ∷ back) in
      let tail = otp ++ (bar ∷ 48 ∷ []) in
      let same : message email otp (48 ∷ []) ≡ message front back tail =
        append_assoc front (bar ∷ back) (bar ∷ tail) in
      verify-right front back back (split bar tail) (request_email_change R T u email otp d s).1
        (d, a) (message email otp (48 ∷ [])) (message_full email otp (48 ∷ []))
        (ap (split bar) same ∙ split-message front back tail plain_front plain_back)
        (same_codes_refl back) (requested email otp d s h)
