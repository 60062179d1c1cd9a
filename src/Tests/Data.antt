-- ===== src/Tests/Data.antt =====
-- Tracks, assets and catalogs for the tests.
use moqlivemock_svc.Base.{ℕ, Bool, true, false, none, some, List, [], ◌∷◌, String}
use moqlivemock_svc.Base.Int.{pos}
use moqlivemock_svc.Asset.Types.{
  FullSample, avc, unprotected, ContentTrack, Asset, LocTrack, Av1SpatialLayer,
}
use moqlivemock_svc.Catalog.Types.{Track, Catalog, zero_track}
use moqlivemock_svc.Publish.Names.{NamespaceEntry}

abbrev pub sample : Bool → ℕ → FullSample
sample sync byte = record {
  sync = sync;
  dur = 1;
  size = 5;
  decode_time = 0;
  bytes = 0 ∷ 0 ∷ 0 ∷ 1 ∷ byte ∷ [];
}

-- Two frames a second, and a clip of three frames.
abbrev pub short_track : ContentTrack
short_track = record {
  name = "video_400kbps";
  content_type = "video";
  language = "und";
  sample_bitrate = 400000;
  time_scale = 2;
  duration = 3;
  gop_length = 2;
  sample_dur = 1;
  loop_dur = 3;
  sample_batch = 1;
  samples = sample true 101 ∷ sample false 65 ∷ sample false 66 ∷ [];
  spec_data = avc (record {
    spss = (103 ∷ []) ∷ [];
    ppss = (104 ∷ []) ∷ [];
    codec = "avc1.640016";
    width = 640;
    height = 360;
  });
  protection = unprotected;
  content_protection_ref_ids = [];
  cc608 = false;
}

abbrev pub short_loc_track : LocTrack
short_loc_track = record { content_track = short_track; spatial_layer = none }

abbrev pub upper_layer : Av1SpatialLayer
upper_layer = record { spatial_id = 1; width = 1280; height = 720; samples = []; total_size = 0 }

abbrev pub short_asset : Asset
short_asset = record {
  name = "short";
  groups = record { alt_group_id = 1; tracks = short_track ∷ [] } ∷ [];
  loop_dur_ms = 0;
  subtitle_tracks = [];
}

abbrev pub looped_asset : Asset
looped_asset = record short_asset { loop_dur_ms = 1500 }

-- Two layers, of which the upper one depends on the lower one.
abbrev pub layer_entry : String → List String → Track
layer_entry name dependencies = record zero_track {
  name = name;
  packaging = "loc";
  is_live = true;
  role = "video";
  dependencies = dependencies;
}

abbrev pub layered_catalog : Catalog
layered_catalog = record {
  version = "draft-01";
  generated_at = some (pos 0);
  is_complete = false;
  delta_update = [];
  tracks = layer_entry "v/s1" ("v/s0" ∷ []) ∷ layer_entry "v/s0" [] ∷ [];
  init_data_list = [];
  content_protections = [];
}

abbrev pub loc_namespace : NamespaceEntry
loc_namespace = record {
  namespace = "loc" ∷ [];
  catalog = layered_catalog;
  packaging = "loc";
  moqmi_tracks = [];
}
