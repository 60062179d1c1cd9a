-- ===== src/Catalog/Depend.antt =====
-- `dependencyOrder` of internal/sub/sub.go, a depth-first walk of the tracks that a track depends on.
use moqlivemock_svc.Base.{
  ℕ, zero, suc, Bool, true, false, ◌||◌, none, some, List, [], ◌∷◌, ◌++◌, String, str_eq, length,
}
use moqlivemock_svc.Catalog.Types.{Catalog}
use moqlivemock_svc.Catalog.Lookup.{get_track_by_name}

-- The three ways out of a visit; `out_of_fuel` is the model's own.
pub data Visit : Type 0 where
  ordered : List String → Visit
  cycle : String → Visit
  not_found : String → Visit
  out_of_fuel : Visit

abbrev pub elem : String → List String → Bool
elem name [] = false
elem name (x ∷ xs) = str_eq x name || elem name xs

-- The loop over `track.Dependencies`, which stops at the first error.
abbrev pub visit_all : (List String → String → Visit) → List String → List String → Visit
visit_all step done [] = ordered done
visit_all step done (name ∷ names) = elim (step done name) [
  | ordered more ↦ visit_all step more names
  | cycle at ↦ cycle at
  | not_found at ↦ not_found at
  | out_of_fuel ↦ out_of_fuel
]

abbrev pub append_name : String → Visit → Visit
append_name name (ordered names) = ordered (names ++ name ∷ [])
append_name name (cycle at) = cycle at
append_name name (not_found at) = not_found at
append_name name out_of_fuel = out_of_fuel

-- `visiting` holds the names whose entry of the source's map is true. A name enters `visited` when it
-- is appended to the order, so the order stands for both.
unfoldable pub visit : ℕ → Catalog → List String → List String → String → Visit
visit zero catalog visiting done name = out_of_fuel
visit (suc fuel) catalog visiting done name = elim (elem name done) [
  | true ↦ ordered done
  | false ↦ elim (elem name visiting) [
    | true ↦ cycle name
    | false ↦ elim (get_track_by_name catalog name) [
      | none ↦ not_found name
      | some track ↦
          append_name name
            (visit_all (visit fuel catalog (name ∷ visiting)) done track.dependencies)
    ]
  ]
]

-- The walk enters a track at most once on a path, so its depth is at most the number of tracks.
abbrev pub dependency_order : Catalog → String → Visit
dependency_order catalog track_name = visit (suc (length catalog.tracks)) catalog [] [] track_name
