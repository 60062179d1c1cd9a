-- ===== src/Tests/Sessions.antt =====
-- A player that is made and takes an object.
use moqlivemock_svc.Base.{◌≡◌, refl, true, false, none, some, List, [], ◌∷◌, String, str_eq}
use moqlivemock_svc.Base.Int.{ℤ, pos}
use moqlivemock_svc.Catalog.Types.{Track, Catalog, zero_track}
use moqlivemock_svc.Catalog.Lookup.{track_by_name}
use moqlivemock_svc.Playback.State.{NativePlayback}
use moqlivemock_svc.Playback.Object.{add_object}
use moqlivemock_svc.Playback.Advance.{advance}
use moqlivemock_svc.Playback.Metrics.{after_snapshot}
use moqlivemock_svc.Playback.Create.{
  created, bad_latency, track_not_found, new_native_playback, new_player, list_tracks,
  playback_track,
}
use moqlivemock_svc.Playback.Created.{Explains, new_native_playback-Explains}
use moqlivemock_svc.Playback.Session.{
  arrives, reports, at_rest, then_step, IsBounded, session-IsBounded,
}

abbrev loc_track : String → Track
loc_track name = record zero_track { name = name; packaging = "loc"; codec = "av01" }

abbrev svc_catalog : Catalog
svc_catalog = record {
  version = "1";
  generated_at = none;
  is_complete = false;
  delta_update = [];
  tracks = loc_track "v/s0" ∷ loc_track "v/s1" ∷ [];
  init_data_list = [];
  content_protections = [];
}

abbrev same : String → String
same text = text

abbrev names : List String
names = "v/s0" ∷ "v/s1" ∷ []

abbrev made : NativePlayback
made =
    new_player same str_eq
      (playback_track same str_eq 0 "v/s0" (loc_track "v/s0")
        ∷ playback_track same str_eq 1 "v/s1" (loc_track "v/s1")
        ∷ [])
      true (pos 100) (pos 500)

test_created :
    new_native_playback same str_eq svc_catalog names "v/s1" true (pos 100) (pos 500) ≡ created made
unfolding new_native_playback list_tracks track_by_name
test_created = refl

test_bad_latency :
    new_native_playback same str_eq svc_catalog names "v/s1" true (pos 500) (pos 500) ≡ bad_latency
unfolding new_native_playback
test_bad_latency = refl

test_missing :
    new_native_playback same str_eq svc_catalog ("v/s0" ∷ "x" ∷ []) "x" true (pos 0) (pos 500)
    ≡ track_not_found "x"
unfolding new_native_playback list_tracks track_by_name
test_missing = refl

new_native_playback-Explains_example :
    Explains same str_eq svc_catalog true names "v/s1"
      (pos 100)
      (pos 500)
      (new_native_playback same str_eq svc_catalog names "v/s1" true (pos 100) (pos 500))
new_native_playback-Explains_example =
    new_native_playback-Explains same str_eq svc_catalog true names "v/s1" (pos 100) (pos 500)

abbrev after_object : NativePlayback
after_object = (add_object made "v/s0" 4 0 [] 12 (pos 7)).0

session-IsBounded_example :
    IsBounded (after_snapshot (pos 9) after_object)
    × ((now : ℤ)
        → (r : NativePlayback) × (advance now (after_snapshot (pos 9) after_object) ≡ some r))
session-IsBounded_example =
    session-IsBounded same str_eq svc_catalog names "v/s1" true (pos 100) (pos 500) made
      (after_snapshot (pos 9) after_object) test_created
      (then_step (then_step at_rest (arrives "v/s0" 4 0 [] 12 (pos 7))) (reports (pos 9)))
