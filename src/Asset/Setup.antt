-- ===== src/Asset/Setup.antt =====
-- What `LoadAsset` does with the parsed tracks: `validateAV1SVCGOP`, `createProtectedTracks`,
-- `generateTrackGroups` and `setLoopDuration` of internal/asset.go. The steps of mp4ff (cloning and
-- protecting an init segment, parsing a key id) are in `protect`, which may fail.
use moqlivemock_svc.Base.{
  ℕ, ◌+◌, ◌*◌, ◌/◌, ◌%◌, Bool, true, false, not, ◌&&◌, ◌||◌, Option, none, some, List, [], ◌∷◌,
  ◌++◌, String, str_eq, ltb, ◌==◌, if◌then◌else◌,
}
use moqlivemock_svc.Base.Words.{u32, u64}
use moqlivemock_svc.Base.Sort.{sort}
use moqlivemock_svc.Asset.Types.{
  FullSample, CodecSpecificData, codec_of, ProtectionType, unprotected, ContentTrack, TrackGroup,
  Asset,
}

-- The sync flag is on each GOP's first sample, at a whole second of decode time.
abbrev pub svc_sample_ok : ContentTrack → ℕ → FullSample → Bool
svc_sample_ok ct i s =
    let expected = i % ct.gop_length == 0 in
    if expected then s.sync && s.decode_time % ct.time_scale == 0 else not s.sync

unfoldable pub svc_samples_ok : ContentTrack → ℕ → List FullSample → Bool
svc_samples_ok ct i [] = true
svc_samples_ok ct i (s ∷ rest) =
    let others = svc_samples_ok ct (i + 1) rest in if svc_sample_ok ct i s then others else false

abbrev pub has_samples : List FullSample → Bool
has_samples [] = false
has_samples (s ∷ rest) = true

-- `true` is a nil error; 1000 is `MoqGroupDurMS`.
unfoldable pub validate_av1_svc_gop : ContentTrack → Bool
unfolding svc_samples_ok
validate_av1_svc_gop ct =
    if ct.time_scale == 0 || ct.sample_dur == 0
    then false
    else (if ct.gop_length == 0
          || not (u64 (u64 (ct.gop_length * ct.sample_dur) * 1000) == u64 (1000 * ct.time_scale))
        then false
        else (if has_samples ct.samples then svc_samples_ok ct 0 ct.samples else false))

-- The map from content types to tracks, with the two types that the code reads; a type that the map
-- lacks is `none`.
pub record TracksByType : Type 0 where
  pub video : Option (List ContentTrack)
  pub audio : Option (List ContentTrack)

abbrev pub is_unprotected : ProtectionType → Bool
is_unprotected unprotected = true
is_unprotected _ = false

-- `addProtectionInfoToTrack`; `append_suffix` concatenates strings.
abbrev pub protected_track :
    (String → String → String)
    → List String
    → String
    → ProtectionType
    → CodecSpecificData
    → ContentTrack
    → ContentTrack
protected_track append_suffix ref_ids suffix prot spec_data ct = record ct {
  name = append_suffix ct.name suffix;
  protection = prot;
  content_protection_ref_ids = ref_ids;
  spec_data = spec_data;
}

module _ (append_suffix : String → String → String)
    (protect : CodecSpecificData → Option CodecSpecificData) (ref_ids : List String)
    (suffix : String) (prot : ProtectionType) where
  unfoldable pub protected_copies : List ContentTrack → Option (List ContentTrack)
  protected_copies [] = some []
  protected_copies (ct ∷ tracks) =
      let rest = protected_copies tracks in
      if not (is_unprotected ct.protection) then rest else elim (protect ct.spec_data) [
        | none ↦ none
        | some spec_data ↦ elim rest [
          | none ↦ none
          | some added ↦
              some (protected_track append_suffix ref_ids suffix prot spec_data ct ∷ added)
        ]
      ]

  abbrev pub with_copies : Option (List ContentTrack) → Option (Option (List ContentTrack))
  with_copies none = some none
  with_copies (some tracks) = elim (protected_copies tracks) [
    | none ↦ none
    | some added ↦ some (some (tracks ++ added))
  ]

  unfoldable pub create_protected_tracks : TracksByType → Option TracksByType
  unfolding protected_copies
  create_protected_tracks t = elim (with_copies t.video) [
    | none ↦ none
    | some video ↦ elim (with_copies t.audio) [
      | none ↦ none
      | some audio ↦ some (record { video = video; audio = audio })
    ]
  ]

-- `string_less` is the order of Go's strings. `sort.Slice` keeps no order among equal tracks; the sort
-- used here is one that it may be.
module _ (string_less : String → String → Bool) where
  abbrev pub video_less : ContentTrack → ContentTrack → Bool
  video_less x y =
      if not (str_eq (codec_of x.spec_data) (codec_of y.spec_data))
      then string_less (codec_of x.spec_data) (codec_of y.spec_data)
      else ltb x.sample_bitrate y.sample_bitrate

  abbrev pub audio_less : ContentTrack → ContentTrack → Bool
  audio_less x y = ltb x.sample_bitrate y.sample_bitrate

  abbrev pub same_duration : ℕ → List ContentTrack → Bool
  same_duration d [] = true
  same_duration d (ct ∷ tracks) = ct.duration == d && same_duration d tracks

  abbrev pub equal_durations : List ContentTrack → Bool
  equal_durations [] = true
  equal_durations (ct ∷ tracks) = same_duration ct.duration (ct ∷ tracks)

  abbrev pub audio_groups : ℕ → Option (List ContentTrack) → List TrackGroup
  audio_groups id none = []
  audio_groups id (some tracks) = record { alt_group_id = id; tracks = sort audio_less tracks } ∷ []

  unfoldable pub generate_track_groups : TracksByType → Option (List TrackGroup)
  generate_track_groups t = elim t.video [
    | none ↦ some (audio_groups 1 t.audio)
    | some video ↦
        let sorted = sort video_less video in
        if equal_durations sorted
        then some (record { alt_group_id = 1; tracks = sorted } ∷ audio_groups 2 t.audio)
        else none
  ]

-- A track's loop duration in a group, for the asset's loop duration in milliseconds; `none` is the
-- error. The products are of uint32.
unfoldable pub track_loop_dur : Bool → ℕ → ContentTrack → Option ℕ
track_loop_dur first_group loop_dur_ms t =
    if not first_group && str_eq t.content_type "audio"
    then (if ltb (u32 (t.duration * 1000)) (u32 (loop_dur_ms * t.time_scale))
        then none
        else some (u32 (loop_dur_ms * t.time_scale) / 1000))
    else (if u32 (t.duration * 1000) == u32 (loop_dur_ms * t.time_scale)
        then some t.duration
        else none)

unfoldable pub set_track_loops : Bool → ℕ → List ContentTrack → Option (List ContentTrack)
unfolding track_loop_dur
set_track_loops first_group loop_dur_ms [] = some []
set_track_loops first_group loop_dur_ms (t ∷ tracks) =
    elim (track_loop_dur first_group loop_dur_ms t) [
      | none ↦ none
      | some dur ↦ elim (set_track_loops first_group loop_dur_ms tracks) [
        | none ↦ none
        | some rest ↦ some (record t { loop_dur = dur } ∷ rest)
      ]
    ]

unfoldable pub set_group_loops : Bool → ℕ → List TrackGroup → Option (List TrackGroup)
unfolding set_track_loops
set_group_loops first_group loop_dur_ms [] = some []
set_group_loops first_group loop_dur_ms (g ∷ groups) =
    elim (set_track_loops first_group loop_dur_ms g.tracks) [
      | none ↦ none
      | some tracks ↦ elim (set_group_loops false loop_dur_ms groups) [
        | none ↦ none
        | some rest ↦ some (record g { tracks = tracks } ∷ rest)
      ]
    ]

-- The asset's loop duration, from the first track of the first group. A first group without a track,
-- and a time scale of 0, panic in the source: `panics`.
pub data LoopResult : Type 0 where
  no_tracks panics incompatible : LoopResult
  looped : Asset → LoopResult

abbrev pub loop_dur_ms_of : ContentTrack → ℕ
loop_dur_ms_of t = u32 (t.duration * 1000) / t.time_scale

-- From the first track of the first group.
unfoldable pub loop_from : Asset → List ContentTrack → LoopResult
unfolding set_group_loops
loop_from a [] = panics
loop_from a (t ∷ tracks) =
    if t.time_scale == 0 then panics else elim (set_group_loops true (loop_dur_ms_of t) a.groups) [
      | none ↦ incompatible
      | some looping ↦ looped (record a { groups = looping; loop_dur_ms = loop_dur_ms_of t })
    ]

abbrev pub first_tracks : List TrackGroup → Option (List ContentTrack)
first_tracks [] = none
first_tracks (g ∷ groups) = some g.tracks

unfoldable pub set_loop_duration : Asset → LoopResult
unfolding loop_from
set_loop_duration a = elim (first_tracks a.groups) [
  | none ↦ no_tracks
  | some tracks ↦ loop_from a tracks
]
