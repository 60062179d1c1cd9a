-- ===== src/Catalog/Walk.antt =====
-- What a visit of `dependency_order` does to the order found so far.
use moqlivemock_svc.Base.{
  ℕ, suc, ◌<◌, ◌≤◌, ◌≡◌, refl, ap, true, false, ◌||◌, some, List, [], ◌∷◌, ◌++◌, String, str_eq,
  eq_iff, length, arith, if◌then◌else◌, Bool-cases, inl, inr,
}
use moqlivemock_svc.Catalog.Types.{Track, Catalog}
use moqlivemock_svc.Catalog.Lookup.{track_by_name, get_track_by_name}
use moqlivemock_svc.Catalog.Depend.{Visit, ordered, cycle, not_found, out_of_fuel, elem, visit_all}

abbrev pub AllIn : List String → List String → Type 0
AllIn names order = (name : String) → elem name names ≡ true → elem name order ≡ true

-- A name stands in the order once, after every track that its own track depends on.
pub data IsOrdered (c : Catalog) : List String → Type 0 where
  empty : IsOrdered c []
  append :
      (names : List String) (name : String) (track : Track)
      → IsOrdered c names
      → get_track_by_name c name ≡ some track
      → AllIn track.dependencies names
      → elem name names ≡ false
      → IsOrdered c (names ++ name ∷ [])

-- The names on the path are kept out of the order.
pub record Extends (c : Catalog) (visiting done out : List String) : Type 0 where
  pub is_ordered : IsOrdered c out
  pub keeps : AllIn done out
  pub excludes :
      (name : String) → elem name visiting ≡ true → elem name done ≡ false → elem name out ≡ false

abbrev pub Sound : Catalog → List String → List String → List String → Visit → Type 0
Sound c visiting done names (ordered out) = Extends c visiting done out × AllIn names out
Sound c visiting done names (cycle at) = Unit
Sound c visiting done names (not_found at) = Unit
Sound c visiting done names out_of_fuel = ⊥

pub str_eq_refl : (a : String) → str_eq a a ≡ true
str_eq_refl a = (eq_iff a a).1 refl

pub elem-append :
    (x : String) (xs : List String) (y : String) → elem x (xs ++ y ∷ []) ≡ elem x xs || str_eq y x
elem-append x [] y = ground arith
elem-append x (z ∷ xs) y = ground (arith, elem-append x xs y)

pub Extends-refl :
    {c : Catalog} {visiting done : List String} → IsOrdered c done → Extends c visiting done done
Extends-refl o = record { is_ordered = o; keeps = λ name h. h; excludes = λ name h out. out }

module _ (c : Catalog) (visiting : List String) (step : List String → String → Visit)
    (sound : (done : List String) (name : String)
      → IsOrdered c done
      → Sound c visiting done (name ∷ []) (step done name)) where
  -- The rest of the names goes on from the order that the first one leaves.
  go_on :
      (done : List String) (name : String) (names : List String) (v : Visit)
      → ((more : List String)
          → IsOrdered c more
          → Sound c visiting more names (visit_all step more names))
      → Sound c visiting done (name ∷ []) v
      → Sound c visiting done (name ∷ names) (elim v [
        | ordered more ↦ visit_all step more names
        | cycle at ↦ cycle at
        | not_found at ↦ not_found at
        | out_of_fuel ↦ out_of_fuel
      ])
  go_on done name names (ordered more) ih (first, has) =
      both (visit_all step more names) (ih more first.is_ordered)
    where
      both : (v : Visit) → Sound c visiting more names v → Sound c visiting done (name ∷ names) v
      both (ordered out) (next, all) = (
        record {
          is_ordered = next.is_ordered;
          keeps = λ x h. next.keeps x (first.keeps x h);
          excludes = λ x on_path new. next.excludes x on_path (first.excludes x on_path new);
        },
        λ x h. elim (Bool-cases (str_eq name x)) [
          | inl same ↦ next.keeps x (has x (ground arith))
          | inr other ↦ all x (ground arith)
        ],
      )
      both (cycle at) h = tt
      both (not_found at) h = tt
      both out_of_fuel h = h
  go_on done name names (cycle at) ih h = tt
  go_on done name names (not_found at) ih h = tt
  go_on done name names out_of_fuel ih h = h

  pub visit_all-Sound :
      (done names : List String)
      → IsOrdered c done
      → Sound c visiting done names (visit_all step done names)
  visit_all-Sound done [] o = (Extends-refl o, λ name h. absurd (cc))
  visit_all-Sound done (name ∷ names) o =
      go_on done name names (step done name) (λ more m. visit_all-Sound more names m)
        (sound done name o)

-- The tracks whose names are not on the path.
abbrev pub unvisited : List String → List Track → ℕ
unvisited visiting [] = 0
unvisited visiting (track ∷ tracks) =
    let rest = unvisited visiting tracks in if elem track.name visiting then rest else suc rest

unvisited-cons-le :
    (name : String) (visiting : List String) (tracks : List Track)
    → unvisited (name ∷ visiting) tracks ≤ unvisited visiting tracks
unvisited-cons-le name visiting [] = omega arith
unvisited-cons-le name visiting (track ∷ tracks) =
    ground (arith, unvisited-cons-le name visiting tracks)

pub unvisited-cons-lt :
    (name : String) (visiting : List String) (tracks : List Track) (track : Track)
    → track_by_name tracks name ≡ some track
    → elem name visiting ≡ false
    → unvisited (name ∷ visiting) tracks < unvisited visiting tracks
unfolding track_by_name
unvisited-cons-lt name visiting [] track found new = absurd (cc)
unvisited-cons-lt name visiting (t ∷ tracks) track found new =
    elim (Bool-cases (str_eq t.name name)) [
      | inl same ↦
          let here = (eq_iff t.name name).0 same in
          let found_here : str_eq name t.name ≡ true = rw (here) (str_eq_refl name) in
          let new_here : elem t.name visiting ≡ false = rw (here) new in
          rw (found_here, new_here) (omega (arith, unvisited-cons-le name visiting tracks))
      | inr other ↦ ground (arith, unvisited-cons-lt name visiting tracks track, str_eq t.name name)
    ]

pub unvisited-nil : (tracks : List Track) → unvisited [] tracks ≡ length tracks
unvisited-nil [] = refl
unvisited-nil (track ∷ tracks) = ap suc (unvisited-nil tracks)
