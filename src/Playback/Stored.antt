-- ===== src/Playback/Stored.antt =====
-- `addObject` of internal/sub/playback.go: what it stores.
use moqlivemock_svc.Base.{
  ℕ, suc, ◌≤◌, ◌<◌, ◌≡◌, ◌≢◌, refl, sym, ◌∙◌, Bool, true, false, min, ◌==◌, Option, none, some,
  arith, Option-cases, Bool-cases, ◌⊎◌, inl, inr, length, if◌then◌else◌, List, [], ◌∷◌, ◌++◌,
  String,
}
use moqlivemock_svc.Base.Int.{ℤ}
use moqlivemock_svc.Loc.Marking.{KeyValuePair}
use moqlivemock_svc.Playback.State.{
  PlaybackUnitKey, PlaybackLayer, PlaybackTrack, PlaybackUnit, NativePlayback,
}
use moqlivemock_svc.Playback.Units.{same_key, same_bool, layer_at, trim_pending, max_pending_units}
use moqlivemock_svc.Playback.Object.{
  track_index, same_layer, add_layer, add_to_pending, announced_layer, add_object,
}
use moqlivemock_svc.Playback.Pending.{trim_pending-small}

-- `p.pending[key]`
unfoldable pub find_unit : PlaybackUnitKey → List PlaybackUnit → Option PlaybackUnit
find_unit key [] = none
find_unit key (u ∷ us) = if same_key u.key key then some u else find_unit key us

-- The unit that the source reads or makes before it adds a layer.
abbrev pub unit_or_new : ℕ → PlaybackUnitKey → Option PlaybackUnit → PlaybackUnit
unit_or_new n_tracks key none = record { key = key; layers = []; invalid_from = n_tracks }
unit_or_new n_tracks key (some u) = u

add_layer-key :
    (index : ℕ) (layer : PlaybackLayer) (u : PlaybackUnit) → (add_layer index layer u).key ≡ u.key
unfolding add_layer
add_layer-key index layer u = ground arith

-- Adding a layer changes the unit at its key and no other.
find_unit-add_to_pending :
    (n_tracks : ℕ) (key k : PlaybackUnitKey) (index : ℕ) (layer : PlaybackLayer)
    (us : List PlaybackUnit)
    → find_unit k (add_to_pending n_tracks key index layer us) ≡ (
        if same_key key k
        then some (add_layer index layer (unit_or_new n_tracks key (find_unit key us)))
        else find_unit k us)
unfolding find_unit add_to_pending
find_unit-add_to_pending n_tracks key k index layer [] = refl
find_unit-add_to_pending n_tracks key k index layer (u ∷ us) =
    elim (Bool-cases (same_key u.key key)) [
      | inl at ↦
          rw (at, find_unit, add_to_pending) (rw (add_layer-key index layer u) (ground arith))
      | inr off ↦ ground (arith, find_unit-add_to_pending n_tracks key k index layer us)
    ]

length-add_to_pending :
    (n_tracks : ℕ) (key : PlaybackUnitKey) (index : ℕ) (layer : PlaybackLayer)
    (us : List PlaybackUnit)
    → length (add_to_pending n_tracks key index layer us) ≤ suc (length us)
unfolding add_to_pending
length-add_to_pending n_tracks key index layer [] = omega arith
length-add_to_pending n_tracks key index layer (u ∷ us) =
    ground (arith, length-add_to_pending n_tracks key index layer us)

-- The layer that an index has after a layer arrived for it: the one that was there first.
abbrev pub first_of : Option PlaybackLayer → PlaybackLayer → PlaybackLayer
first_of none layer = layer
first_of (some previous) layer = previous

abbrev pub Differ : PlaybackLayer → PlaybackLayer → Type 0
Differ a b =
    (a.timestamp_us ≢ b.timestamp_us) ⊎ ((a.independent ≢ b.independent) ⊎ (a.bytes ≢ b.bytes))

-- What a unit `u` has become after a layer arrived for the index.
pub record HasLayer (index : ℕ) (layer : PlaybackLayer) (u next : PlaybackUnit) : Type 0 where
  pub same_unit : next.key ≡ u.key
  pub at_index : layer_at index next.layers ≡ some (first_of (layer_at index u.layers) layer)
  pub elsewhere : (j : ℕ) → j ≢ index → layer_at j next.layers ≡ layer_at j u.layers
  pub new_keeps : layer_at index u.layers ≡ none → next.invalid_from ≡ u.invalid_from
  pub same_keeps : layer_at index u.layers ≡ some layer → next.invalid_from ≡ u.invalid_from
  pub other_marks :
      (previous : PlaybackLayer)
      → layer_at index u.layers ≡ some previous
      → Differ previous layer
      → next.invalid_from ≡ min u.invalid_from index

layer_at-append :
    (j index : ℕ) (layer : PlaybackLayer) (layers : List (ℕ × PlaybackLayer))
    → layer_at index layers ≡ none
    → layer_at j (layers ++ (index, layer) ∷ [])
      ≡ (if j == index then some layer else layer_at j layers)
unfolding layer_at
layer_at-append j index layer [] e = ground arith
layer_at-append j index layer ((i, l) ∷ layers) e =
    ground (arith, layer_at-append j index layer layers)

same_layer_refl : (l : PlaybackLayer) → same_layer l l ≡ true
same_layer_refl l = elim (Bool-cases l.independent) [
  | inl e ↦ rw (e) (ground arith)
  | inr e ↦ rw (e) (ground arith)
]

same_bool_eq : (a b : Bool) → same_bool a b ≡ true → a ≡ b
same_bool_eq true b e = sym e
same_bool_eq false true e = absurd (cc)
same_bool_eq false false e = refl

Differ-same_layer : (a b : PlaybackLayer) → Differ a b → same_layer a b ≡ false
Differ-same_layer a b differ = elim (Bool-cases (same_layer a b)) [
  | inr e ↦ e
  | inl e ↦
      let flags = same_bool_eq a.independent b.independent (ground arith) in
      elim differ [
        | inl t ↦ absurd (ground arith)
        | inr (inl f) ↦ absurd (f flags)
        | inr (inr s) ↦ absurd (ground arith)
      ]
]

add_layer-HasLayer :
    (index : ℕ) (layer : PlaybackLayer) (u : PlaybackUnit)
    → HasLayer index layer u (add_layer index layer u)
unfolding add_layer
add_layer-HasLayer index layer u = elim (Option-cases (layer_at index u.layers)) [
  | inl e ↦
      let next = record u { layers = u.layers ++ (index, layer) ∷ [] } in
      let made : add_layer index layer u ≡ next = rw (add_layer, e) refl in
      rw (made) (record {
        same_unit = refl;
        at_index = rw (e) (layer_at-append index index layer u.layers e ∙ ground arith);
        elsewhere = λ j other. layer_at-append j index layer u.layers e ∙ ground arith;
        new_keeps = λ h. refl;
        same_keeps = λ h. refl;
        other_marks = λ previous h differ. absurd (cc);
      })
  | inr (previous, e) ↦
      let layers : (add_layer index layer u).layers ≡ u.layers = rw (add_layer, e) (ground arith) in
      record {
        same_unit = add_layer-key index layer u;
        at_index = rw (layers, e) refl;
        elsewhere = λ j other. rw (layers) refl;
        new_keeps = λ h. absurd (cc);
        same_keeps = λ h.
            let same : previous ≡ layer = cc in
            let equal : same_layer previous layer ≡ true = rw (same) (same_layer_refl layer) in
            rw (add_layer, e, equal) refl;
        other_marks = λ old h differ.
            let same : previous ≡ old = cc in
            let marked = Differ-same_layer previous layer (rw (same) differ) in
            rw (add_layer, e, marked) (ground arith);
      }
]

-- With playback simulated and fewer than 64 units pending, the unit of the group and object of a valid
-- layer of a known track is pending afterwards: the unit that was pending there, or a new one without
-- layers, whose key stays, whose other layers stay, and which has the layer at the track's index, or
-- keeps the one that was there first. If that one differs, the unit is invalid from that index on, if
-- not from a lower one; else its validity stays. The units at all other keys stay as they are.
pub add_object_stores :
    (p : NativePlayback) (track_name : String) (group object : ℕ) (headers : List KeyValuePair)
    (size : ℕ) (now : ℤ) (index : ℕ) (track : PlaybackTrack) (layer : PlaybackLayer)
    → p.simulated ≡ true
    → length p.pending < max_pending_units
    → track_index track_name 0 p.tracks ≡ some (index, track)
    → announced_layer headers track.spatial_id size ≡ some layer
    → let key : PlaybackUnitKey = record { group = group; object = object } in
      let after = (add_object p track_name group object headers size now).0.pending in
      ((next : PlaybackUnit) × (find_unit key after ≡ some next)
        × HasLayer index layer (unit_or_new (length p.tracks) key (find_unit key p.pending)) next)
      × ((k : PlaybackUnitKey)
          → (k.group ≢ group) ⊎ (k.object ≢ object)
          → find_unit k after ≡ find_unit k p.pending)
unfolding add_object
add_object_stores p track_name group object headers size now index track layer sim room known good =
    let key : PlaybackUnitKey = record { group = group; object = object } in
    let n = length p.tracks in
    let old = unit_or_new n key (find_unit key p.pending) in
    let stored = add_to_pending n key index layer p.pending in
    let kept : trim_pending stored ≡ stored =
      trim_pending-small stored
        (omega (arith, length-add_to_pending n key index layer p.pending)) in
    let after : (add_object p track_name group object headers size now).0.pending ≡ stored =
      ground (arith, kept) in
    let self : same_key key key ≡ true = ground arith in
    (
      (
        add_layer index layer old,
        rw (after, find_unit-add_to_pending n key key index layer p.pending, self) refl,
        add_layer-HasLayer index layer old,
      ),
      λ k other.
          let apart : same_key key k ≡ false = ground arith in
          rw (after, find_unit-add_to_pending n key k index layer p.pending, apart) refl,
    )
