-- ===== src/Tests/Requests.antt =====
-- Requests to the publisher.
use moqlivemock_svc.Base.{ℕ, ◌≡◌, ◌<◌, ◌≤◌, ◌↔◌, ◌⊎◌, refl, true, false, not, some, [], ◌∷◌, ◌+◌}
use moqlivemock_svc.Publish.Location.{
  Location, location_in_fetch_range, after_location, location_in_fetch_range_iff,
  after_location-complement,
}
use moqlivemock_svc.Publish.Names.{NamespaceEntry}
use moqlivemock_svc.Publish.Handlers.{FetchMessage, fetch_handler, Handler, subscribe_handler}
use moqlivemock_svc.Publish.Answers.{
  fetch_answers, payloads, subscribe_answers, fetch_handler-answers, subscribe_handler-answers,
}
use moqlivemock_svc.Publish.Served.{fetch_handler-serves}
use moqlivemock_svc.Tests.Data.{loc_namespace, short_asset}

abbrev at : ℕ → ℕ → Location
at group object = record { group = group; object = object }

abbrev other_namespace : NamespaceEntry
other_namespace = record loc_namespace { namespace = "cmaf" ∷ [] }

abbrev catalog_request : FetchMessage
catalog_request = record {
  namespace = "loc" ∷ [];
  track = "catalog";
  start_location = at 0 0;
  end_location = at 0 1;
}

abbrev last_in_group : Location
last_in_group = at 1 2

abbrev group_start : Location
group_start = at 1 0

location_in_fetch_range_iff_example :
    (location_in_fetch_range last_in_group group_start group_start ≡ true) ↔ (
      ((group_start.group < last_in_group.group)
        ⊎ ((group_start.group ≡ last_in_group.group) × (group_start.object ≤ last_in_group.object)))
      × ((last_in_group.group < group_start.group)
          ⊎ ((last_in_group.group ≡ group_start.group)
              × ((group_start.object ≡ 0) ⊎ (last_in_group.object < group_start.object)))))
location_in_fetch_range_iff_example =
    location_in_fetch_range_iff last_in_group group_start group_start

after_location-complement_example :
    (3 ≤ 3
      → after_location (at 3 1) (at 3 0)
        ≡ not (location_in_fetch_range (at 3 1) (at 3 0) (at 3 (0 + 1))))
    × (3 < 3
        → (after_location (at 3 1) (at 3 0) ≡ false)
          × (location_in_fetch_range (at 3 1) (at 3 0) (at 3 (0 + 1)) ≡ false))
after_location-complement_example = after_location-complement (at 3 1) (at 3 0)

fetch_handler-answers_example :
    fetch_answers
      (fetch_handler 4 (λ c. some (7 ∷ [])) (λ call. true) (loc_namespace ∷ []) catalog_request)
    ≡ 1
fetch_handler-answers_example =
    fetch_handler-answers 4 (λ c. some (7 ∷ [])) (λ call. true) (loc_namespace ∷ []) catalog_request

fetch_handler-serves_example :
    let written = payloads (
      fetch_handler 4
        (λ c. some (7 ∷ []))
        (λ call. true)
        (other_namespace ∷ loc_namespace ∷ [])
        catalog_request) in
    let start = catalog_request.start_location in
    ((start.group ≡ 0 → start.object ≡ 0 → written ≡ (7 ∷ []) ∷ [])
      × ((0 < start.group) ⊎ (0 < start.object) → written ≡ []))
fetch_handler-serves_example =
    fetch_handler-serves 4 (λ c. some (7 ∷ [])) (λ call. true) (other_namespace ∷ []) []
      loc_namespace catalog_request (7 ∷ []) ((λ e. absurd (cc)), tt) refl (λ e. absurd (cc)) refl
      refl refl refl

abbrev server : Handler
server = record { namespaces = loc_namespace ∷ []; asset = short_asset; catalog_delay = 0 }

subscribe_handler-answers_example :
    subscribe_answers (
      subscribe_handler 4 (λ call. true) server (record { namespace = "loc" ∷ []; track = "v/s0" }))
    ≡ 1
subscribe_handler-answers_example =
    subscribe_handler-answers 4 (λ call. true) server
      (record { namespace = "loc" ∷ []; track = "v/s0" })
