-- ===== src/Playback/Object.antt =====
-- `addObject` and `validPlaybackMarking` of internal/sub/playback.go.
use moqlivemock_svc.Base.{
  ℕ, suc, Bool, true, false, not, ◌&&◌, Option, none, some, List, [], ◌∷◌, ◌++◌, String, str_eq,
  ltb, ◌==◌, if◌then◌else◌, length,
}
use moqlivemock_svc.Base.Int.{ℤ, pos, negsuc}
use moqlivemock_svc.Loc.Marking.{
  KeyValuePair, LocFrameMarking, absent, too_wide, present, get_loc_frame_marking,
  loc_timestamp_micros,
}
use moqlivemock_svc.Playback.State.{
  PlaybackTrack, PlaybackUnitKey, PlaybackLayer, PlaybackUnit, NativePlayback,
}
use moqlivemock_svc.Playback.Units.{same_bool, same_key, layer_at, trim_pending}

-- `int(n) == z`
abbrev pub is_int : ℤ → ℕ → Bool
is_int (pos m) n = n == m
is_int (negsuc m) n = false

unfoldable pub valid_playback_marking : LocFrameMarking → ℤ → Bool
valid_playback_marking m spatial_id =
    m.start
    && m.last
    && not m.discardable
    && not m.base_layer_sync
    && m.temporal_id == 0
    && is_int spatial_id m.layer_id

-- `p.trackIndex[name]`, with the index and the track: `newNativePlayback` fills the map in track
-- order, so the last of two equal names wins.
unfoldable pub track_index : String → ℕ → List PlaybackTrack → Option (ℕ × PlaybackTrack)
track_index name i [] = none
track_index name i (t ∷ ts) = elim (track_index name (suc i) ts) [
  | some found ↦ some found
  | none ↦ if str_eq t.name name then some (i, t) else none
]

abbrev pub same_layer : PlaybackLayer → PlaybackLayer → Bool
same_layer a b =
    a.timestamp_us == b.timestamp_us && same_bool a.independent b.independent && a.bytes == b.bytes

-- The last part of `addObject`: a second layer at an index is not stored; if it differs, the unit is
-- invalid from that index on.
unfoldable pub add_layer : ℕ → PlaybackLayer → PlaybackUnit → PlaybackUnit
unfolding layer_at
add_layer index layer u = elim (layer_at index u.layers) [
  | none ↦ record u { layers = u.layers ++ (index, layer) ∷ [] }
  | some previous ↦
      if not (same_layer previous layer) && ltb index u.invalid_from
      then record u { invalid_from = index }
      else u
]

-- `p.pending[key]`, made anew where it is missing, with the layer added.
unfoldable pub add_to_pending :
    ℕ → PlaybackUnitKey → ℕ → PlaybackLayer → List PlaybackUnit → List PlaybackUnit
unfolding add_layer
add_to_pending n_tracks key index layer [] =
    add_layer index layer (record { key = key; layers = []; invalid_from = n_tracks }) ∷ []
add_to_pending n_tracks key index layer (u ∷ us) =
    if same_key u.key key
    then add_layer index layer u ∷ us
    else u ∷ add_to_pending n_tracks key index layer us

-- The layer that the headers announce, where they have a timestamp and a valid marking.
unfoldable pub announced_layer : List KeyValuePair → ℤ → ℕ → Option PlaybackLayer
announced_layer headers spatial_id size = elim (get_loc_frame_marking headers) [
  | absent ↦ none
  | too_wide ↦ none
  | present m ↦ elim (loc_timestamp_micros headers) [
    | none ↦ none
    | some us ↦
        if valid_playback_marking m spatial_id
        then some (record { timestamp_us = us; independent = m.independent; bytes = size })
        else none
  ]
]

-- The new state, and whether the player is woken.
unfoldable pub add_object :
    NativePlayback → String → ℕ → ℕ → List KeyValuePair → ℕ → ℤ → NativePlayback × Bool
add_object p track_name group object headers size now =
    let p' = record p { received = p.received ++ record { at = now; bytes = size } ∷ [] } in
    if not p.simulated then (p', false) else elim (track_index track_name 0 p.tracks) [
      | none ↦ (p', true)
      | some (index, track) ↦ elim (announced_layer headers track.spatial_id size) [
        | none ↦ (p', true)
        | some layer ↦ (
          record p' {
            pending = trim_pending (
                add_to_pending (length p.tracks) (record { group = group; object = object }) index
                  layer p.pending);
          },
          true,
        )
      ]
    ]
