-- ===== src/Publish/Location.antt =====
-- `locationLess` and `locationInFetchRange` of internal/pub/pub.go, and `afterLocation` of
-- internal/sub/sub.go.
use moqlivemock_svc.Base.{
  ℕ, ◌+◌, ◌<◌, ◌≤◌, ◌≡◌, ◌⊎◌, ◌↔◌, Bool, true, false, not, ltb, leb, ◌==◌, if◌then◌else◌, arith,
}

pub record Location : Type 0 where
  pub group : ℕ
  pub object : ℕ

unfoldable pub location_less : Location → Location → Bool
location_less a b = if not (a.group == b.group) then ltb a.group b.group else ltb a.object b.object

unfoldable pub location_in_fetch_range : Location → Location → Location → Bool
unfolding location_less
location_in_fetch_range loc start end =
    if location_less loc start
    then false
    else (if end.object == 0 then leb loc.group end.group else location_less loc end)

-- The object stands for its group and its object number.
unfoldable pub after_location : Location → Location → Bool
after_location o loc =
    if not (o.group == loc.group) then ltb loc.group o.group else ltb loc.object o.object

-- A location is in a fetch range exactly when, in the order of group numbers and then object numbers,
-- it is not before the start, and it is in a group before the end's, or in the end's group and either
-- the end's object number is 0 or the location's object number is below it.
pub location_in_fetch_range_iff :
    (loc start end : Location)
    → (location_in_fetch_range loc start end ≡ true) ↔ (
        ((start.group < loc.group) ⊎ ((start.group ≡ loc.group) × (start.object ≤ loc.object)))
        × ((loc.group < end.group)
            ⊎ ((loc.group ≡ end.group) × ((end.object ≡ 0) ⊎ (loc.object < end.object)))))
unfolding location_in_fetch_range location_less
location_in_fetch_range_iff loc start end = ground arith

-- A joining fetch from object 0 of the largest location's group to right after that location, and the
-- subscription's filter: from that group on, an object is passed on by the subscription exactly when it
-- is not in the fetched range, and an object of an earlier group is in neither.
pub after_location-complement :
    (o largest : Location)
    → let fetched =
        location_in_fetch_range o
          (record { group = largest.group; object = 0 })
          (record { group = largest.group; object = largest.object + 1 }) in
      (largest.group ≤ o.group → after_location o largest ≡ not fetched)
      × (o.group < largest.group → (after_location o largest ≡ false) × (fetched ≡ false))
unfolding location_in_fetch_range location_less after_location
after_location-complement o largest = ((λ h. ground arith), (λ h. (ground arith, ground arith)))

-- The order of locations is total and transitive, and nothing is before itself.
location_less-linear :
    (a b c : Location)
    → (location_less a a ≡ false)
      × (location_less a b ≡ true → location_less b c ≡ true → location_less a c ≡ true)
      × (location_less a b ≡ false → location_less b a ≡ false → a ≡ b)
unfolding location_less
location_less-linear a b c = (
  ground arith,
  ground arith,
  λ h h'.
      let group : a.group ≡ b.group = ground arith in
      let object : a.object ≡ b.object = ground arith in
      λ i. record { group = group i; object = object i },
)
