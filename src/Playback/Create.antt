-- ===== src/Playback/Create.antt =====
-- `newNativePlayback` of internal/sub/playback.go. `lower` and `has_prefix` are those of package
-- strings.
use moqlivemock_svc.Base.{
  ℕ, suc, ◌-◌, Bool, true, false, not, ◌&&◌, ◌||◌, none, some, List, [], ◌∷◌, String, str_eq,
  if◌then◌else◌, length, replicate, get_elem?,
}
use moqlivemock_svc.Base.Int.{ℤ, pos, ltb_ℤ}
use moqlivemock_svc.Catalog.Types.{Track, Catalog}
use moqlivemock_svc.Catalog.Lookup.{track_by_name, get_track_by_name}
use moqlivemock_svc.Playback.State.{PlaybackTrack, NativePlayback, receiving, starting, stable}

-- The errors, in the order of their tests, or the player.
pub data NewPlayback : Type 0 where
  empty_chain bad_latency : NewPlayback
  track_not_found not_loc_av1 : String → NewPlayback
  not_the_tip : NewPlayback
  created : NativePlayback → NewPlayback

pub data Listed : Type 0 where
  lacks refuses : String → Listed
  listed : List PlaybackTrack → Listed

module _ (lower : String → String) (has_prefix : String → String → Bool) where
  abbrev pub is_loc_av1 : Track → Bool
  is_loc_av1 track = str_eq track.packaging "loc" && has_prefix (lower track.codec) "av01"

  abbrev pub playback_track : ℕ → String → Track → PlaybackTrack
  playback_track i name track = record {
    name = name;
    spatial_id = elim track.spatial_id [ none ↦ pos i | some id ↦ id ];
    width = track.width;
    height = track.height;
    bitrate = elim track.bitrate [ none ↦ pos 0 | some bitrate ↦ bitrate ];
  }

  abbrev pub list_track : PlaybackTrack → Listed → Listed
  list_track track (listed tracks) = listed (track ∷ tracks)
  list_track track other = other

  -- The loop over the names, from index `i`.
  unfoldable pub list_tracks : Catalog → Bool → ℕ → List String → Listed
  unfolding track_by_name
  list_tracks catalog simulated i [] = listed []
  list_tracks catalog simulated i (name ∷ names) = elim (get_track_by_name catalog name) [
    | none ↦ lacks name
    | some track ↦ elim (simulated && not (is_loc_av1 track)) [
      | true ↦ refuses name
      | false ↦
          list_track (playback_track i name track) (list_tracks catalog simulated (suc i) names)
    ]
  ]

  abbrev pub new_player : List PlaybackTrack → Bool → ℤ → ℤ → NativePlayback
  new_player tracks simulated minimal_buffer target_latency = record {
    tracks = tracks;
    target = length tracks - 1;
    active = 0;
    valid = replicate (length tracks) false;
    pending = [];
    simulated = simulated;
    minimal_buffer = minimal_buffer;
    target_latency = target_latency;
    state = if simulated then starting else receiving;
    switch_state = stable;
    started = false;
    last_presented = none;
    last_presented_at = none;
    stall_started = none;
    stall_count = 0;
    stall_duration = pos 0;
    received = [];
    played = [];
  }

  abbrev pub is_tip : List PlaybackTrack → String → Bool
  is_tip tracks target_name = elim (get_elem? tracks (length tracks - 1)) [
    | none ↦ false
    | some track ↦ str_eq track.name target_name
  ]

  abbrev pub latency_refused : Bool → ℤ → ℤ → Bool
  latency_refused simulated minimal_buffer target_latency =
      simulated && (ltb_ℤ minimal_buffer (pos 0) || not (ltb_ℤ minimal_buffer target_latency))

  unfoldable pub new_native_playback : Catalog → List String → String → Bool → ℤ → ℤ → NewPlayback
  unfolding list_tracks
  new_native_playback catalog [] target_name simulated minimal_buffer target_latency = empty_chain
  new_native_playback catalog (name ∷ names) target_name simulated minimal_buffer target_latency =
      if latency_refused simulated minimal_buffer target_latency
      then bad_latency
      else elim (list_tracks catalog simulated 0 (name ∷ names)) [
        | lacks missing ↦ track_not_found missing
        | refuses other ↦ not_loc_av1 other
        | listed tracks ↦
            if is_tip tracks target_name
            then created (new_player tracks simulated minimal_buffer target_latency)
            else not_the_tip
      ]
