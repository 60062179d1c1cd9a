-- ===== src/Asset/Lookup.antt =====
-- The tracks of an asset by name, and `AddSubtitleTracks`, of internal/asset.go.
use moqlivemock_svc.Base.{
  ℕ, Bool, Option, none, some, List, [], ◌∷◌, ◌++◌, map, String, str_eq, if◌then◌else◌,
}
use moqlivemock_svc.Asset.Types.{
  Av1SpatialLayer, CodecSpecificData, av1, ContentTrack, TrackGroup, SubtitleFormat, wvtt, stpp,
  SubtitleTrack, Asset, LocTrack,
}

-- The layers that `ct.SpecData.(*AV1Data)` gives.
abbrev pub layers_of : CodecSpecificData → List Av1SpatialLayer
layers_of (av1 d) = d.spatial_layers
layers_of _ = []

-- `or_else` is what a loop that returns at the first hit does with the rest.
abbrev pub or_else {ℓ} : {A : Type ℓ} → Option A → Option A → Option A
or_else none rest = rest
or_else (some a) rest = some a

unfoldable pub track_in : List ContentTrack → String → Option ContentTrack
track_in [] name = none
track_in (ct ∷ tracks) name =
    let rest = track_in tracks name in if str_eq ct.name name then some ct else rest

unfoldable pub track_in_groups : List TrackGroup → String → Option ContentTrack
track_in_groups [] name = none
track_in_groups (group ∷ groups) name =
    or_else (track_in group.tracks name) (track_in_groups groups name)

abbrev pub asset_track_by_name : Asset → String → Option ContentTrack
asset_track_by_name a name = track_in_groups a.groups name

-- `layer_name` formats "<source>/s<spatial-id>".
module _ (layer_name : String → ℕ → String) where
  unfoldable pub layer_in : ContentTrack → List Av1SpatialLayer → String → Option LocTrack
  layer_in ct [] name = none
  layer_in ct (layer ∷ layers) name =
      let rest = layer_in ct layers name in
      if str_eq name (layer_name ct.name layer.spatial_id)
      then some (record { content_track = ct; spatial_layer = some layer })
      else rest

  unfoldable pub loc_track_in : List ContentTrack → String → Option LocTrack
  unfolding layer_in
  loc_track_in [] name = none
  loc_track_in (ct ∷ tracks) name =
      let rest = or_else (layer_in ct (layers_of ct.spec_data) name) (loc_track_in tracks name) in
      if str_eq ct.name name
      then some (record { content_track = ct; spatial_layer = none })
      else rest

  unfoldable pub loc_track_in_groups : List TrackGroup → String → Option LocTrack
  unfolding loc_track_in
  loc_track_in_groups [] name = none
  loc_track_in_groups (group ∷ groups) name =
      or_else (loc_track_in group.tracks name) (loc_track_in_groups groups name)

  abbrev pub get_loc_track_by_name : Asset → String → Option LocTrack
  get_loc_track_by_name a name = loc_track_in_groups a.groups name

unfoldable pub subtitle_track_in : List SubtitleTrack → String → Option SubtitleTrack
subtitle_track_in [] name = none
subtitle_track_in (st ∷ tracks) name =
    let rest = subtitle_track_in tracks name in if str_eq st.name name then some st else rest

abbrev pub get_subtitle_track_by_name : Asset → String → Option SubtitleTrack
get_subtitle_track_by_name a name = subtitle_track_in a.subtitle_tracks name

-- `SubsTimeTimescale` and `DefaultCueDurMS`.
abbrev pub new_subtitle_track : String → SubtitleFormat → String → SubtitleTrack
new_subtitle_track name format lang = record {
  name = name;
  format = format;
  language = lang;
  time_scale = 1000;
  cue_dur_ms = 900;
  region = 0;
}

-- `track_name` formats "subs_<format>_<lang>".
abbrev pub add_subtitle_tracks :
    (SubtitleFormat → String → String) → List String → List String → Asset → Asset
add_subtitle_tracks track_name wvtt_langs stpp_langs a = record a {
  subtitle_tracks =
      a.subtitle_tracks
      ++ map (λ lang. new_subtitle_track (track_name wvtt lang) wvtt lang) wvtt_langs
      ++ map (λ lang. new_subtitle_track (track_name stpp lang) stpp lang) stpp_langs;
}

-- `enabled` stands for the generator that is installed: whether it is one that is enabled.
abbrev pub set_cc608_track : Bool → ContentTrack → ContentTrack
set_cc608_track enabled ct =
    if str_eq ct.content_type "video" then record ct { cc608 = enabled } else ct

abbrev pub set_cc608_group : Bool → TrackGroup → TrackGroup
set_cc608_group enabled g = record g { tracks = map (set_cc608_track enabled) g.tracks }

abbrev pub set_cc608_generator : Bool → Asset → Asset
set_cc608_generator enabled a = record a { groups = map (set_cc608_group enabled) a.groups }
