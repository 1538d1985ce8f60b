-- ===== src/Prisma/Single.antt =====
-- `update` of the row with a unique key: an error if there is none, and the changed row otherwise.
use kltn_high_concurrency_co.Prelude.{
  ℕ, ◌≡◌, ◌⊎◌, ◌∙◌, sym, ap, refl, inl, inr, Bool, true, none, some, List, [], ◌∷◌, arith, find,
  revise, Bool-cases, Option-cases,
}
use kltn_high_concurrency_co.Common.Exception.{ok, throw, error}
use kltn_high_concurrency_co.Common.Action.{Action}
use kltn_high_concurrency_co.Prisma.{Table}

find-revise :
    {A : Type 0} (p : A → Bool) (f : A → A) (xs : List A)
    → ((x : A) → p x ≡ true → p (f x) ≡ true)
    → find p (revise p f xs) ≡ none
    → revise p f xs ≡ xs
unfolding find revise
find-revise p f [] keeps h = refl
find-revise p f (x ∷ xs) keeps h = elim (Bool-cases (p x)) [
  | inl fits ↦ ground (arith, keeps x fits)
  | inr other ↦ ground (arith, find-revise p f xs keeps)
]

module _ {Row : Type 0} {clash : Row → Row → Bool} (T : Table Row clash) where
  unfoldable pub update_one : (Row → Bool) → (Row → Row) → Action T.State Row
  update_one p f d = elim (T.update_many p f d) [
    | none ↦ (throw error, d)
    | some (n, d') ↦ elim (T.find_first p d') [ none ↦ (throw error, d') | some row ↦ (ok row, d') ]
  ]

  -- The database rejects the change of the row, or does not find the row after it.
  abbrev pub IsUnwritten : (Row → Bool) → (Row → Row) → T.State → Type 0
  IsUnwritten p f d =
      (T.update_many p f d ≡ none)
      ⊎ ((n : ℕ) × (d' : T.State) × (T.update_many p f d ≡ some (n, d'))
          × (find p (T.rows d') ≡ none))

  -- It throws and leaves the rows alone, because the write was rejected or the row is not found afterwards, or it
  -- changes the rows with the key and answers the first.
  pub update_one-why :
      (p : Row → Bool) (f : Row → Row) (d : T.State)
      → ((x : Row) → p x ≡ true → p (f x) ≡ true)
      → (((update_one p f d).0 ≡ throw error)
          × (T.rows (update_one p f d).1 ≡ T.rows d)
          × ((T.update_many p f d ≡ none)
              ⊎ ((n : ℕ) × (d' : T.State) × (T.update_many p f d ≡ some (n, d'))
                  × (find p (T.rows d') ≡ none))))
        ⊎ ((row : Row) × ((update_one p f d).0 ≡ ok row)
            × (T.rows (update_one p f d).1 ≡ revise p f (T.rows d))
            × (find p (T.rows (update_one p f d).1) ≡ some row))
  unfolding update_one
  update_one-why p f d keeps = elim (Option-cases (T.update_many p f d)) [
    | inl e ↦ inl (rw (e, update_one) refl, rw (e, update_one) refl, inl e)
    | inr ((n, d'), e) ↦
        let rows = (T.update_many_done p f d d' n e).0 in
        elim (Option-cases (T.find_first p d')) [
          | inl gone ↦
              let missing = sym (T.find_first_lem p d') ∙ gone in
              inl (
                rw (e, gone, update_one) refl,
                rw (e, gone, update_one)
                    (rows ∙ find-revise p f (T.rows d) keeps (ap (find p) (sym rows) ∙ missing)),
                inr (n, d', e, missing),
              )
          | inr (row, found) ↦ inr (
            row,
            rw (e, found, update_one) refl,
            rw (e, found, update_one) rows,
            rw (e, found, update_one) (sym (T.find_first_lem p d') ∙ found),
          )
        ]
  ]

  -- the same without the reasons
  pub update_one-cases :
      (p : Row → Bool) (f : Row → Row) (d : T.State)
      → ((x : Row) → p x ≡ true → p (f x) ≡ true)
      → (((update_one p f d).0 ≡ throw error) × (T.rows (update_one p f d).1 ≡ T.rows d))
        ⊎ ((row : Row) × ((update_one p f d).0 ≡ ok row)
            × (T.rows (update_one p f d).1 ≡ revise p f (T.rows d))
            × (find p (T.rows (update_one p f d).1) ≡ some row))
  update_one-cases p f d keeps = elim (update_one-why p f d keeps) [
    | inl (bad, kept, why) ↦ inl (bad, kept)
    | inr changed ↦ inr changed
  ]
