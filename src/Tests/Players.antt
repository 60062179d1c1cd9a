-- ===== src/Tests/Players.antt =====
-- The simulated player on a unit of two layers.
use moqlivemock_svc.Base.{
  ℕ, ◌≤◌, ◌≡◌, ◌≢◌, ◌⊎◌, refl, true, false, none, some, List, [], ◌∷◌, ◌++◌, length, arith, String,
}
use moqlivemock_svc.Base.Int.{ℤ, pos}
use moqlivemock_svc.Loc.Marking.{
  KeyValuePair, get_loc_frame_marking, decode_marking, loc_timestamp_micros,
}
use moqlivemock_svc.Playback.State.{
  PlaybackTrack, PlaybackUnitKey, PlaybackLayer, PlaybackUnit, NativePlayback, playing, stable,
}
use moqlivemock_svc.Playback.Units.{max_pending_units}
use moqlivemock_svc.Playback.Object.{
  add_object, track_index, announced_layer, valid_playback_marking,
}
use moqlivemock_svc.Playback.Advance.{advance}
use moqlivemock_svc.Playback.Levels.{IsLayered}
use moqlivemock_svc.Playback.Run.{Plays, advance-Plays, advance-IsLayered}
use moqlivemock_svc.Playback.Order.{NotBefore, advance-later}
use moqlivemock_svc.Playback.Pending.{add_object_bounded}
use moqlivemock_svc.Playback.Stored.{find_unit, unit_or_new, HasLayer, add_object_stores}

abbrev layer_of : String → ℕ → PlaybackTrack
layer_of name spatial_id = record {
  name = name;
  spatial_id = pos spatial_id;
  width = none;
  height = none;
  bitrate = pos 100;
}

abbrev whole_unit : PlaybackUnit
whole_unit = record {
  key = record { group = 3; object = 0 };
  layers =
      (0, record { timestamp_us = 3000000; independent = true; bytes = 10 })
      ∷ (1, record { timestamp_us = 3000000; independent = true; bytes = 30 })
      ∷ [];
  invalid_from = 2;
}

-- It plays the lower layer, and a unit of both layers is pending.
abbrev player : NativePlayback
player = record {
  tracks = layer_of "v/s0" 0 ∷ layer_of "v/s1" 1 ∷ [];
  target = 1;
  active = 1;
  valid = true ∷ false ∷ [];
  pending = whole_unit ∷ [];
  simulated = true;
  minimal_buffer = pos 0;
  target_latency = pos 0;
  state = playing;
  switch_state = stable;
  started = true;
  last_presented = some 2000000;
  last_presented_at = some (pos 2000000000);
  stall_started = none;
  stall_count = 0;
  stall_duration = pos 0;
  received = [];
  played = [];
}

player-IsLayered : IsLayered player
player-IsLayered = record { in_range = omega arith; valid_below = refl; target_last = refl }

abbrev after_three : ℤ
after_three = pos 3500000000

advance-Plays_example :
    (q : NativePlayback) × (advance after_three player ≡ some q)
    × Plays after_three player q
    × IsLayered q
advance-Plays_example = advance-Plays after_three player player-IsLayered refl (omega arith)

advance-IsLayered_example :
    (q : NativePlayback) × (advance after_three player ≡ some q) × IsLayered q
advance-IsLayered_example = advance-IsLayered after_three player player-IsLayered

advance-later_example :
    (q : NativePlayback) × (advance after_three player ≡ some q)
    × NotBefore (some 2000000) q.last_presented
advance-later_example = advance-later after_three player player-IsLayered refl (omega arith)

add_object_bounded_example :
    (length (add_object player "v/s0" 4 0 [] 12 after_three).0.pending ≤ max_pending_units)
    × ((add_object player "v/s0" 4 0 [] 12 after_three).0.received
        ≡ [] ++ record { at = after_three; bytes = 12 } ∷ [])
add_object_bounded_example = add_object_bounded player "v/s0" 4 0 [] 12 after_three (omega arith)

-- A base layer of group 4: a timestamp, and the marking of a whole frame that is no sync frame.
abbrev base_headers : List KeyValuePair
base_headers =
    record { type = 6; value_var_int = 4000000 } ∷ record { type = 4; value_var_int = 49152 } ∷ []

abbrev base_layer : PlaybackLayer
base_layer = record { timestamp_us = 4000000; independent = false; bytes = 12 }

abbrev new_key : PlaybackUnitKey
new_key = record { group = 4; object = 0 }

add_object_stores_example :
    let after = (add_object player "v/s0" 4 0 base_headers 12 after_three).0.pending in
    ((next : PlaybackUnit) × (find_unit new_key after ≡ some next)
      × HasLayer 0 base_layer (unit_or_new 2 new_key (find_unit new_key (whole_unit ∷ []))) next)
    × ((k : PlaybackUnitKey)
        → (k.group ≢ 4) ⊎ (k.object ≢ 0)
        → find_unit k after ≡ find_unit k (whole_unit ∷ []))
unfolding track_index announced_layer get_loc_frame_marking decode_marking loc_timestamp_micros
    valid_playback_marking
add_object_stores_example =
    add_object_stores player "v/s0" 4 0 base_headers 12 after_three 0 (layer_of "v/s0" 0) base_layer
      refl (omega arith) refl refl
