-- ===== src/Seats/Zones.antt =====
-- The zones of an event are made wholly or not at all, and once.
use kltn_high_concurrency_co.Prelude.{
  ◌≡◌, refl, sym, ◌∙◌, subst, inl, inr, ◌⊎◌, Bool, List, none, map, ◌==◌, Bool-cases,
}
use kltn_high_concurrency_co.Common.Ids.{UserId, EventId}
use kltn_high_concurrency_co.Common.Exception.{
  Exception, throw, error, http_exception, bad_request, Result-cases,
}
use kltn_high_concurrency_co.Catalog.{zone, ZoneRow, given, assert_event_owner_and_status}
use kltn_high_concurrency_co.Catalog.Owned.{assert_event_owner_and_status-found}
use kltn_high_concurrency_co.Seats.{Tables, ZoneConfigDto, zone_of, transaction, create_zones}
use kltn_high_concurrency_co.Seats.Transaction.{IsCommitted, transaction-cases, IsOpen}

abbrev pub in_event : EventId → ZoneRow → Bool
in_event id row = row.event_id == id

module _ (T : Tables) where
  -- Zones either are not made, and nothing changes, or all is done: the event was the user's, with a status DRAFT,
  -- PENDING_APPROVAL or REJECTED and without a ticket model; it becomes a ZONE event, its zones come
  -- behind the others, and the answer holds the zones of the event.
  pub create_zones-Answer :
      (u : UserId) (id : EventId) (zones : List ZoneConfigDto) (p : T.profiles.State)
      (e : T.events.State) (z : T.zones.State)
      → ((bad : Exception) × (create_zones T u id zones p (e, z) ≡ (throw bad, (e, z))))
        ⊎ (IsOpen T u id p e
            × IsCommitted T T.zones id zone
                (map (zone_of id) zones)
                (T.zones.find_many (in_event id))
                (e, z)
                (create_zones T u id zones p (e, z)))
  unfolding create_zones
  create_zones-Answer u id zones p e z =
      elim (Result-cases (assert_event_owner_and_status T.profiles T.events u id p e)) [
        | inr (bad, refused) ↦ inl (bad, rw (create_zones, refused) refl)
        | inl (x, owned) ↦ elim (Bool-cases (given x.ticket_model)) [
          | inl modelled ↦
              inl (http_exception bad_request none, rw (create_zones, owned, modelled) refl)
          | inr unset ↦
              let rows = map (zone_of id) zones in
              let read = T.zones.find_many (in_event id) in
              let (mine, early) =
                assert_event_owner_and_status-found T.profiles T.events u id p e x owned in
              let same : create_zones T u id zones p (e, z)
                  ≡ transaction T T.zones id zone rows read (e, z) =
                rw (create_zones, owned, unset) refl in
              elim (transaction-cases T T.zones id zone rows read e z) [
                | inl (failed, why) ↦ inl (error, same ∙ failed)
                | inr committed ↦ inr (
                  (x, mine, early, unset),
                  subst (IsCommitted T T.zones id zone rows read (e, z)) (sym same) committed,
                )
              ]
        ]
      ]
