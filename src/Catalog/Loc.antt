-- ===== src/Catalog/Loc.antt =====
-- `GenLOCCatalogEntry` and `genLOCSVCTracks` of internal/asset.go.
use moqlivemock_svc.Base.{
  ℕ, ◌-◌, Bool, true, false, ◌&&◌, Option, none, some, List, [], ◌∷◌, ◌++◌, String, str_eq, ◌==◌,
  if◌then◌else◌,
}
use moqlivemock_svc.Base.Int.{ℤ, pos}
use moqlivemock_svc.Asset.Types.{
  Av1SpatialLayer, CodecSpecificData, avc, hevc, av1, aac, opus, ac3, codec_of, ContentTrack,
  TrackGroup, Asset,
}
use moqlivemock_svc.Asset.Setup.{is_unprotected}
use moqlivemock_svc.Asset.Lookup.{layers_of}
use moqlivemock_svc.Catalog.Types.{Accessibility, Track, Catalog, zero_track}

abbrev pub cta608_cc1_eng : List Accessibility
cta608_cc1_eng = record { scheme = "urn:scte:dash:cc:cea-608:2015"; value = "CC1=eng" } ∷ []

abbrev pub is_loc_codec : CodecSpecificData → Bool
is_loc_codec (ac3 d) = false
is_loc_codec _ = true

-- `if x != 0 { field = Ptr(int(x)) }`
abbrev pub unless_zero : ℕ → Option ℤ
unless_zero n = if n == 0 then none else some (pos n)

abbrev pub width_of : CodecSpecificData → Option ℤ
width_of (avc d) = unless_zero d.width
width_of (hevc d) = unless_zero d.width
width_of (av1 d) = unless_zero d.width
width_of _ = none

abbrev pub height_of : CodecSpecificData → Option ℤ
height_of (avc d) = unless_zero d.height
height_of (hevc d) = unless_zero d.height
height_of (av1 d) = unless_zero d.height
height_of _ = none

abbrev pub loc_sample_rate : CodecSpecificData → Option ℤ
loc_sample_rate (aac d) = unless_zero d.sample_rate
loc_sample_rate (opus d) = unless_zero d.sample_rate
loc_sample_rate _ = none

abbrev pub loc_channel_config : CodecSpecificData → String
loc_channel_config (aac d) = d.channel_config
loc_channel_config (opus d) = d.channel_config
loc_channel_config _ = ""

-- `with_prefix` puts a prefix in place of the first four bytes of a codec string, `layer_name` formats
-- "<source>/s<spatial-id>", `carries_captions` is the second result of `cc608.CodecFor`, and the
-- bitrates are those of `calcLOCBitrate` and `calcAV1SpatialLOCBitrate`.
module _ (with_prefix : String → String → String) (layer_name : String → ℕ → String)
    (carries_captions : String → Bool) (loc_bitrate : ContentTrack → ℤ)
    (spatial_bitrate : ContentTrack → Av1SpatialLayer → ℤ) where
  abbrev pub loc_codec : CodecSpecificData → String
  loc_codec (avc d) = with_prefix "avc3" d.codec
  loc_codec (hevc d) = with_prefix "hev1" d.codec
  loc_codec (opus d) = "opus"
  loc_codec d = codec_of d

  abbrev pub layer_track : ContentTrack → Bool → Av1SpatialLayer → Track
  layer_track ct is_first layer = record zero_track {
    name = layer_name ct.name layer.spatial_id;
    packaging = "loc";
    is_live = true;
    role = "video";
    render_group = some (pos 1);
    spatial_id = some (pos layer.spatial_id);
    codec = codec_of ct.spec_data;
    framerate = some (ct.time_scale, ct.sample_dur);
    bitrate = some (spatial_bitrate ct layer);
    width = some (pos layer.width);
    height = some (pos layer.height);
    language = ct.language;
    dependencies = if is_first then [] else layer_name ct.name (layer.spatial_id - 1) ∷ [];
  }

  -- A layer after the first depends on the layer with the next lower spatial id.
  unfoldable pub layer_tracks : ContentTrack → Bool → List Av1SpatialLayer → List Track
  layer_tracks ct is_first [] = []
  layer_tracks ct is_first (layer ∷ layers) =
      layer_track ct is_first layer ∷ layer_tracks ct false layers

  abbrev pub gen_loc_svc_tracks : ContentTrack → List Av1SpatialLayer → List Track
  gen_loc_svc_tracks ct layers = layer_tracks ct true layers

  abbrev pub base_track : ContentTrack → ℕ → Track
  base_track ct alt_group = record zero_track {
    name = ct.name;
    packaging = "loc";
    is_live = true;
    render_group = some (pos 1);
    alt_group = some (pos alt_group);
    codec = loc_codec ct.spec_data;
    bitrate = some (loc_bitrate ct);
    language = ct.language;
  }

  abbrev pub captions_of : ContentTrack → List Accessibility
  captions_of ct =
      if carries_captions (codec_of ct.spec_data) && ct.cc608 then cta608_cc1_eng else []

  unfoldable pub gen_loc_track : ContentTrack → ℕ → Track
  gen_loc_track ct alt_group =
      if str_eq ct.content_type "video"
      then record (base_track ct alt_group) {
        role = "video";
        framerate = some (ct.time_scale, ct.sample_dur);
        accessibility = captions_of ct;
        width = width_of ct.spec_data;
        height = height_of ct.spec_data;
      }
      else (if str_eq ct.content_type "audio"
          then record (base_track ct alt_group) {
            role = "audio";
            sample_rate = loc_sample_rate ct.spec_data;
            channel_config = loc_channel_config ct.spec_data;
          }
          else base_track ct alt_group)

  abbrev pub media_tracks : ContentTrack → ℕ → List Av1SpatialLayer → List Track
  media_tracks ct alt_group [] = gen_loc_track ct alt_group ∷ []
  media_tracks ct alt_group (layer ∷ layers) = gen_loc_svc_tracks ct (layer ∷ layers)

  unfoldable pub gen_loc_tracks_of : ContentTrack → ℕ → List Track
  unfolding gen_loc_track layer_tracks
  gen_loc_tracks_of ct alt_group =
      if is_unprotected ct.protection && is_loc_codec ct.spec_data
      then media_tracks ct alt_group (layers_of ct.spec_data)
      else []

  unfoldable pub gen_loc_group : List ContentTrack → ℕ → List Track
  unfolding gen_loc_tracks_of
  gen_loc_group [] alt_group = []
  gen_loc_group (ct ∷ tracks) alt_group =
      gen_loc_tracks_of ct alt_group ++ gen_loc_group tracks alt_group

  unfoldable pub gen_loc_groups : List TrackGroup → List Track
  unfolding gen_loc_group
  gen_loc_groups [] = []
  gen_loc_groups (group ∷ groups) =
      gen_loc_group group.tracks group.alt_group_id ++ gen_loc_groups groups

  unfoldable pub gen_loc_catalog_entry : Asset → ℤ → Catalog
  unfolding gen_loc_groups
  gen_loc_catalog_entry a generated_at_ms = record {
    version = "draft-01";
    generated_at = some generated_at_ms;
    is_complete = false;
    delta_update = [];
    tracks = gen_loc_groups a.groups;
    init_data_list = [];
    content_protections = [];
  }
