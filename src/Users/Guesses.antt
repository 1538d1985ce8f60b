-- ===== src/Users/Guesses.antt =====
-- Three wrong guesses at the code of a new address lock the change for 15 minutes.
use kltn_high_concurrency_co.Prelude.{
  ℕ, suc, ◌+◌, ◌<◌, ◌≡◌, ◌∙◌, refl, sym, subst, ap, false, none, some, [], ◌∷◌, arith, mem, ==_refl,
  pos, leb, Text, same_codes, split, to_decimal, digits, split_whole,
}
use kltn_high_concurrency_co.Common.Ids.{UserId}
use kltn_high_concurrency_co.Common.Exception.{throw, http_exception, unauthorized}
use kltn_high_concurrency_co.Common.AuditLog.{AuditRow, never_same}
use kltn_high_concurrency_co.Redis.Commands.{Keyspace}
use kltn_high_concurrency_co.Redis.{Redis}
use kltn_high_concurrency_co.Prisma.{Table}
use kltn_high_concurrency_co.Users.Keys.{
  AccountRow, same_address, change_key, change_lock_key, schema, bar, parse_int, leading_digits,
  message,
}
use kltn_high_concurrency_co.Users.{locked_out, wrong_otp, verify_email_change}
use kltn_high_concurrency_co.Users.Codes.{message_full, split-message, verify-wrong}

-- The code waits with `a` attempts made and k + 1 seconds left, and the user is not locked.
pub record IsOpen (u : UserId) (email code : Text) (a k : ℕ) (h : Keyspace schema) : Type 0 where
  pub unlocked : h.strings (change_lock_key u) ≡ none
  pub waits :
      h.strings (change_key u)
      ≡ some (record { value = message email code (to_decimal a); left = some (suc k) })

module _ (R : Redis schema) (T : Table AccountRow same_address) (A : Table AuditRow never_same)
    (u : UserId) (email code : Text) (k : ℕ) (plain_email : mem bar email ≡ false)
    (plain_code : mem bar code ≡ false) where
  -- a wrong guess counts
  guessed :
      (a : ℕ) (otp : Text) (s : R.State) (w : T.State × A.State)
      → mem bar (to_decimal a) ≡ false
      → parse_int (to_decimal a) ≡ some (pos a)
      → same_codes otp code ≡ false
      → IsOpen u email code a k (R.view s)
      → verify_email_change R T A u otp (s, w) ≡ (
        throw (wrong_otp R T u email code (some (pos a)) s).0,
        ((wrong_otp R T u email code (some (pos a)) s).1, w),
      )
  guessed a otp s w plain_count count wrong o =
      let text = message email code (to_decimal a) in
      let parts : split bar text ≡ email ∷ code ∷ to_decimal a ∷ [] =
        split-message email code (to_decimal a) plain_email plain_code
        ∙ ap (λ ws. email ∷ code ∷ ws) (split_whole bar (to_decimal a) plain_count) in
      subst
        (λ n.
          verify_email_change R T A u otp (s, w)
          ≡ (throw (wrong_otp R T u email code n s).0, ((wrong_otp R T u email code n s).1, w)))
        count
        (verify-wrong R T A u email code (to_decimal a) otp [] s w text
          (message_full email code (to_decimal a)) parts wrong
          (
            ground (arith, R.exists_lem (change_lock_key u) s, o.unlocked),
            ground (arith, R.get_lem (change_key u) s, o.waits),
          ))

  counted :
      (a : ℕ) (s : R.State)
      → a + 1 < 3
      → IsOpen u email code a k (R.view s)
      → ((wrong_otp R T u email code (some (pos a)) s).0 ≡ http_exception unauthorized none)
        × IsOpen u email code (a + 1) k (R.view (wrong_otp R T u email code (some (pos a)) s).1)
  unfolding wrong_otp
  counted a s few o =
      let text = message email code (to_decimal (a + 1)) in
      let s' = R.set_ex (change_key u) text (suc k) s in
      let seen = R.view-set_ex (change_key u) text (suc k) s (omega arith) in
      let left : R.ttl (change_key u) s ≡ pos (suc k) =
        ground (arith, R.ttl_lem (change_key u) s, o.waits) in
      let more : leb 3 (suc a) ≡ false = ground (arith, few) in
      rw (wrong_otp, left, more)
        (
          refl,
          record {
            unlocked = ground (arith, seen, o.unlocked);
            waits = ground (arith, seen, ==_refl u);
          },
        )

  third_wrong :
      (s : R.State)
      → IsOpen u email code 2 k (R.view s)
      → ((wrong_otp R T u email code (some (pos 2)) s).0 ≡ locked_out)
        × ((R.view (wrong_otp R T u email code (some (pos 2)) s).1).strings (change_lock_key u)
            ≡ some (record { value = 49 ∷ []; left = some 900 }))
  unfolding wrong_otp
  third_wrong s o =
      let s1 = R.del (change_key u) s in
      (refl, ground (arith, R.view-set_ex (change_lock_key u) (49 ∷ []) 900 s1, ==_refl u))

  refused_while :
      (n : ℕ) (otp : Text) (s : R.State) (w : T.State × A.State)
      → n < 900
      → (R.view s).strings (change_lock_key u) ≡ some (record { value = 49 ∷ []; left = some 900 })
      → verify_email_change R T A u otp (R.elapse n s, w) ≡ (throw locked_out, (R.elapse n s, w))
  unfolding verify_email_change
  refused_while n otp s (d, a) p l =
      ground (arith, R.exists_lem (change_lock_key u) (R.elapse n s), R.view-elapse n s, l)

  -- After a wrong guess at a code with `a` attempts made, below two, there is one more attempt made.
  wrong_again :
      (a : ℕ) (otp : Text) (s : R.State) (w : T.State × A.State)
      → a + 1 < 3
      → mem bar (to_decimal a) ≡ false
      → parse_int (to_decimal a) ≡ some (pos a)
      → same_codes otp code ≡ false
      → IsOpen u email code a k (R.view s)
      → (s' : R.State) × (verify_email_change R T A u otp (s, w)
          ≡ (throw (http_exception unauthorized none), (s', w)))
        × IsOpen u email code (a + 1) k (R.view s')
  wrong_again a otp s w few plain_count count wrong o =
      let (answer, following) = counted a s few o in
      (
        (wrong_otp R T u email code (some (pos a)) s).1,
        subst
            (λ x.
              verify_email_change R T A u otp (s, w)
              ≡ (throw x, ((wrong_otp R T u email code (some (pos a)) s).1, w)))
            answer (guessed a otp s w plain_count count wrong o),
        following,
      )

  -- The state after three guesses in a row.
  abbrev pub after_three :
      Text → Text → Text → R.State × (T.State × A.State) → R.State × (T.State × A.State)
  after_three g1 g2 g3 w =
      (verify_email_change R T A u g3
        (verify_email_change R T A u g2 (verify_email_change R T A u g1 w).1).1).1

  -- After three wrong guesses in a row at a fresh code, of a user that is not locked, for an address and with a code without a
  -- bar, every guess within 15 minutes is refused with 429, also the right code, and changes nothing; the
  -- users and the audit log are as before.
  pub verify_email_change-three_wrong :
      (g1 g2 g3 g : Text) (n : ℕ) (s : R.State) (w : T.State × A.State)
      → same_codes g1 code ≡ false
      → same_codes g2 code ≡ false
      → same_codes g3 code ≡ false
      → IsOpen u email code 0 k (R.view s)
      → n < 900
      → let v = after_three g1 g2 g3 (s, w) in
        (v.1 ≡ w)
        × (verify_email_change R T A u g (R.elapse n v.0, v.1)
            ≡ (throw locked_out, (R.elapse n v.0, v.1)))
  unfolding mem to_decimal digits parse_int leading_digits
  verify_email_change-three_wrong g1 g2 g3 g n s w w1 w2 w3 o p =
      let (s1, e1, o1) = wrong_again 0 g1 s w (omega arith) refl refl w1 o in
      let (s2, e2, o2) = wrong_again 1 g2 s1 w (omega arith) refl refl w2 o1 in
      let e3 = guessed 2 g3 s2 w refl refl w3 o2 in
      let s3 = (wrong_otp R T u email code (some (pos 2)) s2).1 in
      let third : after_three g1 g2 g3 (s, w) ≡ (s3, w) =
        ap (λ v. (verify_email_change R T A u g3 (verify_email_change R T A u g2 v.1).1).1) e1
        ∙ ap (λ v. (verify_email_change R T A u g3 v.1).1) e2
        ∙ ap (λ v. v.1) e3 in
      subst
        (λ v.
          (v.1 ≡ w)
          × (verify_email_change R T A u g (R.elapse n v.0, v.1)
              ≡ (throw locked_out, (R.elapse n v.0, v.1))))
        (sym third) (refl, refused_while n g s3 w p (third_wrong s2 o2).1)
