-- ===== src/Organizer/Profile.antt =====
-- What an update of the profile of an organizer does to its review.
use kltn_high_concurrency_co.Prelude.{
  ◌≡◌, refl, sym, ◌∙◌, inl, inr, ◌⊎◌, true, false, some, none, find, revise, arith, ap, not,
  if◌then◌else◌, same_text_refl, find-revise-All, Bool-cases,
}
use kltn_high_concurrency_co.Common.Ids.{UserId}
use kltn_high_concurrency_co.Common.Exception.{
  Exception, ok, throw, error, http_exception, bad_request, Result-cases,
}
use kltn_high_concurrency_co.Prisma.{Table}
use kltn_high_concurrency_co.Prisma.Single.{update_one-cases}
use kltn_high_concurrency_co.Catalog.{
  ProfileRow, EventRow, same_user, same_event_id, pending_review, is_given, is_cleared, set_to,
}
use kltn_high_concurrency_co.Organizer.Rows.{
  UpdateOrganizerProfileDto, UpdatedProfile, requires_review, has_fields, patch_profile,
  by_profile_id,
}
use kltn_high_concurrency_co.Organizer.{get_owned_profile, update_profile}

module _ (P : Table ProfileRow same_user) (E : Table EventRow same_event_id) where
  -- An update of a profile either throws and changes no profile, or patches the rows with the id of the profile of the user
  -- with the fields given, and answers the first of them; the note says whether the name is a new one.
  pub update_profile-answers :
      (u : UserId) (dto : UpdateOrganizerProfileDto) (p : P.State)
      → (((x : Exception) × ((update_profile P E u dto p).0 ≡ throw x))
          × (P.rows (update_profile P E u dto p).1 ≡ P.rows p))
        ⊎ ((profile : ProfileRow) × (row : ProfileRow) × (get_owned_profile P E u p ≡ ok profile)
            × (has_fields dto ≡ true)
            × (P.rows (update_profile P E u dto p).1
                ≡ revise (by_profile_id profile.id) (patch_profile dto) (P.rows p))
            × (find (by_profile_id profile.id) (P.rows (update_profile P E u dto p).1) ≡ some row)
            × ((update_profile P E u dto p).0
                ≡ ok (record {
                  updated = row;
                  note = requires_review dto.org_name profile.org_name;
                })))
  unfolding update_profile
  update_profile-answers u dto p = elim (Result-cases (get_owned_profile P E u p)) [
    | inr (x, stranger) ↦
        inl ((x, rw (update_profile, stranger) refl), rw (update_profile, stranger) refl)
    | inl (profile, known) ↦ elim (Bool-cases (has_fields dto)) [
      | inr empty ↦ inl (
        (http_exception bad_request none, rw (update_profile, known, empty) refl),
        rw (update_profile, known, empty) refl,
      )
      | inl changes ↦ elim (Bool-cases (is_cleared dto.org_name)) [
        | inl nulls ↦ inl (
          (error, rw (update_profile, known, changes, nulls) refl),
          rw (update_profile, known, changes, nulls) refl,
        )
        | inr full ↦
            elim (update_one-cases P (by_profile_id profile.id) (patch_profile dto) p
              (λ x fits. fits)) [
                | inl (bad, kept) ↦ inl (
                  (error, rw (update_profile, known, changes, full, bad) refl),
                  rw (update_profile, known, changes, full, bad) kept,
                )
                | inr (row, good, rows, found) ↦ inr (
                  profile,
                  row,
                  known,
                  changes,
                  rw (update_profile, known, changes, full, good) rows,
                  rw (update_profile, known, changes, full, good) found,
                  rw (update_profile, known, changes, full, good) refl,
                )
              ]
      ]
    ]
  ]

  -- An update that gives the name that the profile has already answers without the note, and resets the status
  -- to PENDING all the same.
  pub update_profile-same_name :
      (u : UserId) (dto : UpdateOrganizerProfileDto) (p : P.State) (profile : ProfileRow)
      (answer : UpdatedProfile)
      → get_owned_profile P E u p ≡ ok profile
      → dto.org_name ≡ set_to profile.org_name
      → (update_profile P E u dto p).0 ≡ ok answer
      → (answer.note ≡ false) × (answer.updated.status ≡ pending_review)
  update_profile-same_name u dto p profile answer known name h =
      elim (update_profile-answers u dto p) [
        | inl ((x, bad), rows) ↦ absurd (ground (arith, h, bad))
        | inr (mine, row, here, fields, rows, found, good) ↦
            let me : mine ≡ profile = ground (arith, here, known) in
            let same : answer
                ≡ record { updated = row; note = requires_review dto.org_name mine.org_name } =
              ground (arith, h, good) in
            let reset : row.status ≡ pending_review =
              find-revise-All (λ r. r.status ≡ pending_review) (by_profile_id mine.id)
                (patch_profile dto) (P.rows p) row
                (λ x. ap (λ o. if is_given o then pending_review else x.status) name)
                (ap (find (by_profile_id mine.id)) (sym rows) ∙ found) (λ x fits. fits) in
            (
              ap (λ a. a.note) same
                  ∙ ap (λ o. requires_review o mine.org_name) name
                  ∙ ap (λ m. requires_review (set_to profile.org_name) m.org_name) me
                  ∙ ap not (same_text_refl profile.org_name),
              ap (λ a. a.updated.status) same ∙ reset,
            )
      ]
