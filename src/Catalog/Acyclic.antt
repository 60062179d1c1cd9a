-- ===== src/Catalog/Acyclic.antt =====
-- A catalog whose dependencies have no cycle and no missing track has an order for each track.
use moqlivemock_svc.Base.{
  ℕ, zero, suc, ◌<◌, ◌≡◌, refl, true, some, List, [], ◌∷◌, ◌++◌, String, str_eq, eq_iff, length,
  arith, Bool-cases, inl, inr,
}
use moqlivemock_svc.Catalog.Types.{Track, Catalog}
use moqlivemock_svc.Catalog.Lookup.{get_track_by_name}
use moqlivemock_svc.Catalog.Depend.{Visit, ordered, elem, visit_all, visit, dependency_order}
use moqlivemock_svc.Catalog.Walk.{str_eq_refl, unvisited, unvisited-cons-lt, unvisited-nil}

abbrev pub Succeeds : Visit → Type 0
Succeeds v = (names : List String) × (v ≡ ordered names)

-- Each track depends on tracks of the catalog that have a lower rank.
abbrev pub IsRanked : Catalog → (String → ℕ) → Type 0
IsRanked c rank =
    (name : String) (track : Track)
    → get_track_by_name c name ≡ some track
    → (d : String) → elem d track.dependencies ≡ true
    → ((t : Track) × (get_track_by_name c d ≡ some t)) × (rank d < rank name)

visit_all-Succeeds :
    (step : List String → String → Visit) (done names : List String)
    → ((more : List String) (name : String) → elem name names ≡ true → Succeeds (step more name))
    → Succeeds (visit_all step done names)
visit_all-Succeeds step done [] h = (done, refl)
visit_all-Succeeds step done (name ∷ names) h =
    let (more, e) = h done name (ground (arith, str_eq_refl name)) in
    let rest = visit_all-Succeeds step more names (λ d n on. h d n (ground arith)) in
    rw (visit_all, e) rest

above-cons :
    (rank : String → ℕ) (name d : String) (visiting : List String)
    → rank d < rank name
    → ((x : String) → elem x visiting ≡ true → rank name < rank x)
    → (x : String) → elem x (name ∷ visiting) ≡ true
    → rank d < rank x
above-cons rank name d visiting lower above x on = elim (Bool-cases (str_eq name x)) [
  | inl same ↦ rw (← (eq_iff name x).0 same) lower
  | inr other ↦ let later = above x (ground arith) in omega (arith, later)
]

visit-Succeeds :
    (c : Catalog) (rank : String → ℕ)
    → IsRanked c rank
    → (fuel : ℕ) (visiting done : List String) (name : String) (track : Track)
    → unvisited visiting c.tracks < fuel
    → get_track_by_name c name ≡ some track
    → ((x : String) → elem x visiting ≡ true → rank name < rank x)
    → Succeeds (visit fuel c visiting done name)
unfolding visit
visit-Succeeds c rank ranked zero visiting done name track h found above = absurd (omega arith)
visit-Succeeds c rank ranked (suc fuel) visiting done name track h found above =
    elim (Bool-cases (elem name done)) [
      | inl old ↦ rw (visit, old) (done, refl)
      | inr new ↦ elim (Bool-cases (elem name visiting)) [
        | inl on ↦ absurd (omega (arith, above name on))
        | inr off ↦
            let shorter = unvisited-cons-lt name visiting c.tracks track found off in
            let (names, e) =
              visit_all-Succeeds (visit fuel c (name ∷ visiting)) done track.dependencies
                (λ more d on.
                  let ((t, here), lower) = ranked name track found d on in
                  visit-Succeeds c rank ranked fuel (name ∷ visiting) more d t
                    (omega (arith, shorter)) here (above-cons rank name d visiting lower above)) in
            rw (visit, new, off, found, e) (names ++ name ∷ [], refl)
      ]
    ]

-- When each track depends on tracks of the catalog with a lower rank, the walk returns an order for
-- each track of the catalog.
pub dependency_order-Succeeds :
    (c : Catalog) (rank : String → ℕ) (name : String) (track : Track)
    → IsRanked c rank
    → get_track_by_name c name ≡ some track
    → Succeeds (dependency_order c name)
dependency_order-Succeeds c rank name track ranked found =
    visit-Succeeds c rank ranked (suc (length c.tracks)) [] [] name track
      (omega (arith, unvisited-nil c.tracks)) found (λ x h. absurd (cc))
