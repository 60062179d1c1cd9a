-- ===== src/Catalog/Order.antt =====
-- The order that `dependency_order` returns, and that its walk ends.
use moqlivemock_svc.Base.{
  ℕ, zero, suc, ◌<◌, ◌≡◌, true, false, some, List, [], ◌∷◌, ◌++◌, String, str_eq, eq_iff, length,
  arith, Option-cases, Bool-cases, inl, inr, ◌≢◌,
}
use moqlivemock_svc.Catalog.Types.{Track, Catalog}
use moqlivemock_svc.Catalog.Lookup.{get_track_by_name}
use moqlivemock_svc.Catalog.Depend.{
  Visit, ordered, cycle, not_found, out_of_fuel, elem, append_name, visit, dependency_order,
}
use moqlivemock_svc.Catalog.Walk.{
  AllIn, IsOrdered, append, empty, Sound, Extends-refl, elem-append, str_eq_refl, visit_all-Sound,
  unvisited, unvisited-cons-lt, unvisited-nil,
}

-- A name that is already in the order, or on no path, alone.
AllIn-one : (name : String) (order : List String) → elem name order ≡ true → AllIn (name ∷ []) order
AllIn-one name order h x on = let same = (eq_iff name x).0 (ground arith) in rw (← same) h

apart :
    (name x : String) (visiting : List String)
    → elem name visiting ≡ false
    → elem x visiting ≡ true
    → str_eq name x ≡ false
apart name x visiting off on = elim (Bool-cases (str_eq name x)) [
  | inl same ↦
      let e = (eq_iff name x).0 same in
      let off' : elem x visiting ≡ false = rw (← e) off in absurd (cc)
  | inr other ↦ other
]

-- The name is appended when the tracks that its track depends on are in the order.
finish :
    (c : Catalog) (visiting done : List String) (name : String) (track : Track) (v : Visit)
    → get_track_by_name c name ≡ some track
    → elem name done ≡ false
    → elem name visiting ≡ false
    → Sound c (name ∷ visiting) done track.dependencies v
    → Sound c visiting done (name ∷ []) (append_name name v)
finish c visiting done name track (ordered names) found new off (e, all) =
    let self = str_eq_refl name in
    let fresh = e.excludes name (ground (arith, self)) new in
    (
      record {
        is_ordered = append names name track e.is_ordered found all fresh;
        keeps = λ x h. ground (arith, elem-append x names name, e.keeps x);
        excludes = λ x on h.
            ground (arith, elem-append x names name, e.excludes x, apart name x visiting off on);
      },
      AllIn-one name (names ++ name ∷ []) (ground (arith, elem-append name names name, self)),
    )
finish c visiting done name track (cycle at) found new off h = tt
finish c visiting done name track (not_found at) found new off h = tt
finish c visiting done name track out_of_fuel found new off h = h

visit-Sound :
    (c : Catalog) (fuel : ℕ) (visiting done : List String) (name : String)
    → unvisited visiting c.tracks < fuel
    → IsOrdered c done
    → Sound c visiting done (name ∷ []) (visit fuel c visiting done name)
unfolding visit
visit-Sound c zero visiting done name h o = absurd (omega arith)
visit-Sound c (suc fuel) visiting done name h o = elim (Bool-cases (elem name done)) [
  | inl old ↦ rw (Sound, old) (Extends-refl o, AllIn-one name done old)
  | inr new ↦ elim (Bool-cases (elem name visiting)) [
    | inl on ↦ rw (Sound, new, on) tt
    | inr off ↦ elim (Option-cases (get_track_by_name c name)) [
      | inl missing ↦ rw (Sound, new, off, missing) tt
      | inr (track, found) ↦
          let shorter = unvisited-cons-lt name visiting c.tracks track found off in
          let all =
            visit_all-Sound c (name ∷ visiting) (visit fuel c (name ∷ visiting))
              (λ d n. visit-Sound c fuel (name ∷ visiting) d n (omega (arith, shorter))) done
              track.dependencies o in
          rw (Sound, new, off, found) (finish c visiting done name track _ found new off all)
    ]
  ]
]

-- Whatever the catalog, the walk ends: it returns an order, or one of the two errors of the source.
pub dependency_order-total : (c : Catalog) (name : String) → dependency_order c name ≢ out_of_fuel
dependency_order-total c name e =
    let enough : unvisited [] c.tracks < suc (length c.tracks) =
      omega (arith, unvisited-nil c.tracks) in
    let sound = visit-Sound c (suc (length c.tracks)) [] [] name enough empty in
    rw (e, Sound) at sound

-- In an order that is returned for a track every name stands once, after the names that its track
-- depends on, and the track's own name is in it.
pub dependency_order-IsOrdered :
    (c : Catalog) (name : String) (names : List String)
    → dependency_order c name ≡ ordered names
    → IsOrdered c names × (elem name names ≡ true)
dependency_order-IsOrdered c name names e =
    let enough : unvisited [] c.tracks < suc (length c.tracks) =
      omega (arith, unvisited-nil c.tracks) in
    let sound = visit-Sound c (suc (length c.tracks)) [] [] name enough empty in
    let (extends, all) = (rw (e) at sound) in
    (extends.is_ordered, all name (ground (arith, str_eq_refl name)))
