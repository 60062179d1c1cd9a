-- ===== src/Playback/Pending.antt =====
-- `addObject`: how many units are pending afterwards.
use mathlib.Core.List.{Memᴰ}
use moqlivemock_svc.Base.{
  ℕ, zero, suc, ◌≤◌, ◌≡◌, refl, ◌∙◌, arith, ltb, Option-cases, Bool-cases, ◌⊎◌, inl, inr, length,
  List, [], ◌∷◌, ◌++◌, String,
}
use moqlivemock_svc.Base.Int.{ℤ}
use moqlivemock_svc.Base.Sort.{insert_sorted, sort}
use moqlivemock_svc.Loc.Marking.{KeyValuePair}
use moqlivemock_svc.Playback.State.{PlaybackUnit, NativePlayback}
use moqlivemock_svc.Playback.Units.{
  sorted_units, unit_less, delete_unit, trim_loop, trim_pending, max_pending_units,
}
use moqlivemock_svc.Playback.Object.{track_index, add_to_pending, announced_layer, add_object}
use moqlivemock_svc.Playback.Next.{mem-sort, length-delete_unit-lt}

-- A sorted list that is not empty starts with one of the units.
sorted_units-head :
    (u : PlaybackUnit) (us vs : List PlaybackUnit) → sorted_units us ≡ u ∷ vs → Memᴰ u us
unfolding sorted_units
sorted_units-head u us vs e = mem-sort unit_less u us (rw e (Memᴰ.head refl))

length-insert_sorted :
    (u : PlaybackUnit) (us : List PlaybackUnit)
    → length (insert_sorted unit_less u us) ≡ suc (length us)
unfolding insert_sorted
length-insert_sorted u [] = refl
length-insert_sorted u (v ∷ us) = ground (arith, length-insert_sorted u us)

length-sorted_units : (us : List PlaybackUnit) → length (sorted_units us) ≡ length us
unfolding sorted_units sort
length-sorted_units [] = refl
length-sorted_units (u ∷ us) =
    length-insert_sorted u (sort unit_less us) ∙ ground (arith, length-sorted_units us)

List-cases :
    (us : List PlaybackUnit)
    → (us ≡ []) ⊎ ((v : PlaybackUnit) × (vs : List PlaybackUnit) × (us ≡ v ∷ vs))
List-cases [] = inl refl
List-cases (v ∷ vs) = inr (v, vs, refl)

length-trim_loop :
    (fuel : ℕ) (us : List PlaybackUnit)
    → length us ≤ fuel
    → length (trim_loop fuel us) ≤ max_pending_units
unfolding trim_loop
length-trim_loop zero us h = omega arith
length-trim_loop (suc fuel) us h = elim (Bool-cases (ltb max_pending_units (length us))) [
  | inr small ↦ rw (small, trim_loop) (ground arith)
  | inl large ↦ elim (List-cases (sorted_units us)) [
    | inl empty ↦ absurd (ground (arith, length-sorted_units us))
    | inr (u, vs, e) ↦
        rw (large, e, trim_loop)
          (length-trim_loop fuel (delete_unit u.key us)
            (omega (arith, length-delete_unit-lt u us (sorted_units-head u us vs e))))
  ]
]

trim_loop-small :
    (fuel : ℕ) (us : List PlaybackUnit) → length us ≤ max_pending_units → trim_loop fuel us ≡ us
unfolding trim_loop
trim_loop-small zero us h = refl
trim_loop-small (suc fuel) us h = ground arith

length-trim_pending : (us : List PlaybackUnit) → length (trim_pending us) ≤ max_pending_units
unfolding trim_pending
length-trim_pending us = length-trim_loop (length us) us (omega arith)

pub trim_pending-small :
    (us : List PlaybackUnit) → length us ≤ max_pending_units → trim_pending us ≡ us
unfolding trim_pending
trim_pending-small us = trim_loop-small (length us) us

-- Whatever arrives, at most 64 units are pending after `addObject` if at most 64 were before, and
-- every object is counted as received.
pub add_object_bounded :
    (p : NativePlayback) (track_name : String) (group object : ℕ) (headers : List KeyValuePair)
    (size : ℕ) (now : ℤ)
    → length p.pending ≤ max_pending_units
    → (length (add_object p track_name group object headers size now).0.pending ≤ max_pending_units)
      × ((add_object p track_name group object headers size now).0.received
          ≡ p.received ++ record { at = now; bytes = size } ∷ [])
unfolding add_object
add_object_bounded p track_name group object headers size now h =
    elim (Option-cases (track_index track_name 0 p.tracks)) [
      | inl unknown ↦ ground arith
      | inr ((index, track), at) ↦
          elim (Option-cases (announced_layer headers track.spatial_id size)) [
            | inl bad ↦ ground arith
            | inr (layer, good) ↦ ground (
              arith,
              length-trim_pending (
                  add_to_pending (length p.tracks) (record { group = group; object = object }) index
                    layer p.pending),
            )
          ]
    ]
