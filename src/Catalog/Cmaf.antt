-- ===== src/Catalog/Cmaf.antt =====
-- `GenCMAFCatalogEntry` of internal/asset.go.
use moqlivemock_svc.Base.{
  ℕ, ◌+◌, Bool, true, false, not, ◌&&◌, Option, none, some, List, [], ◌∷◌, ◌++◌, String, str_eq,
  length, if◌then◌else◌,
}
use moqlivemock_svc.Base.Int.{ℤ, pos}
use moqlivemock_svc.Asset.Types.{
  CodecSpecificData, aac, opus, ac3, codec_of, ProtectionType, unprotected, drm, eccp, ContentTrack,
  TrackGroup, SubtitleFormat, wvtt, stpp, SubtitleTrack, Asset,
}
use moqlivemock_svc.Catalog.Types.{Track, InitData, ContentProtection, Catalog, zero_track}
use moqlivemock_svc.Catalog.Loc.{cta608_cc1_eng, unless_zero, width_of, height_of}

abbrev pub same_protection : ProtectionType → ProtectionType → Bool
same_protection unprotected unprotected = true
same_protection drm drm = true
same_protection eccp eccp = true
same_protection _ _ = false

abbrev pub cmaf_sample_rate : CodecSpecificData → Option ℤ
cmaf_sample_rate (aac d) = unless_zero d.sample_rate
cmaf_sample_rate (opus d) = unless_zero d.sample_rate
cmaf_sample_rate (ac3 d) = unless_zero d.sample_rate
cmaf_sample_rate _ = none

abbrev pub cmaf_channel_config : CodecSpecificData → String
cmaf_channel_config (aac d) = d.channel_config
cmaf_channel_config (opus d) = d.channel_config
cmaf_channel_config (ac3 d) = d.channel_config
cmaf_channel_config _ = ""

abbrev pub subtitle_codec : SubtitleFormat → String
subtitle_codec wvtt = "wvtt"
subtitle_codec stpp = "stpp.ttml.im1t"

abbrev pub subtitle_alt_group : ℕ → SubtitleFormat → ℕ
subtitle_alt_group groups wvtt = groups + 1
subtitle_alt_group groups stpp = groups + 2

-- The two lists that the loops append to.
pub record Entries : Type 0 where
  pub tracks : List Track
  pub init_data_list : List InitData

abbrev pub no_entries : Entries
no_entries = record { tracks = []; init_data_list = [] }

abbrev pub join : Option Entries → Option Entries → Option Entries
join (some x) (some y) = some (record {
  tracks = x.tracks ++ y.tracks;
  init_data_list = x.init_data_list ++ y.init_data_list;
})
join _ _ = none

-- `append_string` concatenates, `init_data` and `subtitle_init_data` are GenCMAFInitData in base 64,
-- `cmaf_bitrate` and `locmaf_bitrate` measure a chunk; each of these may fail. `locmaf_version` is the
-- LOCMAF library's, and `carries_captions` the second result of `cc608.CodecFor`.
module _ (append_string : String → String → String) (init_data : ContentTrack → Option String)
    (subtitle_init_data : SubtitleTrack → Option String)
    (cmaf_bitrate locmaf_bitrate : ContentTrack → Option ℤ) (locmaf_version : String)
    (carries_captions : String → Bool) where
  abbrev pub init_ref_of : String → String
  init_ref_of name = append_string "init-" name

  abbrev pub inline_data : String → String → InitData
  inline_data ref payload = record { id = ref; type = "inline"; payload = payload }

  abbrev pub shared_fields : String → ℕ → ContentTrack → Track
  shared_fields namespace alt_group ct = record zero_track {
    namespace = namespace;
    is_live = true;
    render_group = some (pos 1);
    alt_group = some (pos alt_group);
    init_ref = init_ref_of ct.name;
    codec = codec_of ct.spec_data;
    timescale = some (pos ct.time_scale);
    language = ct.language;
    content_protection_ref_ids = ct.content_protection_ref_ids;
  }

  unfoldable pub base_fields : String → ℕ → ContentTrack → Track
  base_fields namespace alt_group ct =
      if str_eq ct.content_type "video"
      then record (shared_fields namespace alt_group ct) {
        role = "video";
        framerate = some (ct.time_scale, ct.sample_dur);
        accessibility =
            if carries_captions (codec_of ct.spec_data) && ct.cc608 then cta608_cc1_eng else [];
        width = width_of ct.spec_data;
        height = height_of ct.spec_data;
      }
      else (if str_eq ct.content_type "audio"
          then record (shared_fields namespace alt_group ct) {
            role = "audio";
            sample_rate = cmaf_sample_rate ct.spec_data;
            channel_config = cmaf_channel_config ct.spec_data;
          }
          else shared_fields namespace alt_group ct)

  abbrev pub variant : Track → String → String → String → ℤ → Track
  variant base name packaging version bitrate = record base {
    name = name;
    packaging = packaging;
    locmaf_version = version;
    bitrate = some bitrate;
  }

  -- The two variants of a track, which share an entry of the init data list.
  unfoldable pub media_entries : String → ProtectionType → ℕ → ContentTrack → Option Entries
  unfolding base_fields
  media_entries namespace prot alt_group ct =
      let base = base_fields namespace alt_group ct in
      if not (same_protection ct.protection prot) then some no_entries else elim (init_data ct) [
        | none ↦ none
        | some payload ↦ elim (cmaf_bitrate ct) [
          | none ↦ none
          | some cmaf_rate ↦ elim (locmaf_bitrate ct) [
            | none ↦ none
            | some locmaf_rate ↦ some (record {
              tracks =
                  variant base ct.name "cmaf" "" cmaf_rate
                  ∷ variant base (append_string ct.name "_locmaf") "locmaf" locmaf_version
                      locmaf_rate
                  ∷ [];
              init_data_list = inline_data (init_ref_of ct.name) payload ∷ [];
            })
          ]
        ]
      ]

  unfoldable pub group_entries : String → ProtectionType → ℕ → List ContentTrack → Option Entries
  unfolding media_entries
  group_entries namespace prot alt_group [] = some no_entries
  group_entries namespace prot alt_group (ct ∷ tracks) =
      join (media_entries namespace prot alt_group ct)
        (group_entries namespace prot alt_group tracks)

  unfoldable pub groups_entries : String → ProtectionType → List TrackGroup → Option Entries
  unfolding group_entries
  groups_entries namespace prot [] = some no_entries
  groups_entries namespace prot (g ∷ groups) =
      join (group_entries namespace prot g.alt_group_id g.tracks)
        (groups_entries namespace prot groups)

  abbrev pub subtitle_track_entry : String → ℕ → SubtitleTrack → Track
  subtitle_track_entry namespace groups st = record zero_track {
    name = st.name;
    namespace = namespace;
    packaging = "cmaf";
    is_live = true;
    role = "subtitle";
    render_group = some (pos 1);
    alt_group = some (pos (subtitle_alt_group groups st.format));
    init_ref = init_ref_of st.name;
    codec = subtitle_codec st.format;
    timescale = some (pos st.time_scale);
    language = st.language;
  }

  unfoldable pub subtitle_entries : String → ℕ → List SubtitleTrack → Option Entries
  subtitle_entries namespace groups [] = some no_entries
  subtitle_entries namespace groups (st ∷ tracks) = elim (subtitle_init_data st) [
    | none ↦ none
    | some payload ↦
        join
          (some (record {
            tracks = subtitle_track_entry namespace groups st ∷ [];
            init_data_list = inline_data (init_ref_of st.name) payload ∷ [];
          }))
          (subtitle_entries namespace groups tracks)
  ]

  -- `protections` are the content protections of the asset's DRM information for the filter.
  unfoldable pub gen_cmaf_catalog_entry :
      Asset
      → (ProtectionType → List ContentProtection)
      → String
      → ProtectionType
      → ℤ
      → Option Catalog
  unfolding groups_entries subtitle_entries
  gen_cmaf_catalog_entry a protections namespace prot generated_at_ms =
      elim (join (groups_entries namespace prot a.groups)
        (subtitle_entries namespace (length a.groups) a.subtitle_tracks)) [
          | none ↦ none
          | some entries ↦ some (record {
            version = "draft-01";
            generated_at = some generated_at_ms;
            is_complete = false;
            delta_update = [];
            tracks = entries.tracks;
            init_data_list = entries.init_data_list;
            content_protections = protections prot;
          })
        ]
