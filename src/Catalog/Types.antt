-- ===== src/Catalog/Types.antt =====
-- The MSF/CMSF catalog of internal/catalog.go. An optional field with an empty default (`omitempty`
-- on a string, a slice or a bool) is plain; one with a pointer is an option. A frame rate, a float64
-- in the source, is kept as the two numbers that the source divides.
use moqlivemock_svc.Base.{ℕ, Bool, false, Option, none, List, [], String}
use moqlivemock_svc.Base.Int.{ℤ}

pub record Accessibility : Type 0 where
  pub scheme : String
  pub value : String

pub record DrmService : Type 0 where
  pub url : String
  pub type : String

pub record DrmSystem : Type 0 where
  pub system_id : String
  pub robustness : String
  pub la_url : Option DrmService
  pub authz_url : Option DrmService
  pub cert_url : Option DrmService
  pub pssh : String

pub record ContentProtection : Type 0 where
  pub ref_id : String
  pub default_kids : List String
  pub scheme : String
  pub drm_system : Option DrmSystem

pub record Track : Type 0 where
  pub name : String
  pub namespace : String
  pub packaging : String
  pub locmaf_version : String
  pub is_live : Bool
  pub target_latency : Option ℤ
  pub role : String
  pub label : String
  pub render_group : Option ℤ
  pub alt_group : Option ℤ
  pub init_ref : String
  pub dependencies : List String
  pub temporal_id : Option ℤ
  pub spatial_id : Option ℤ
  pub codec : String
  pub framerate : Option (ℕ × ℕ)
  pub timescale : Option ℤ
  pub bitrate : Option ℤ
  pub width : Option ℤ
  pub height : Option ℤ
  pub sample_rate : Option ℤ
  pub channel_config : String
  pub display_width : Option ℤ
  pub display_height : Option ℤ
  pub language : String
  pub track_duration : Option ℤ
  pub event_type : String
  pub parent_name : String
  pub content_protection_ref_ids : List String
  pub accessibility : List Accessibility

pub record DeltaOperation : Type 0 where
  pub op : String
  pub tracks : List Track

pub record InitData : Type 0 where
  pub id : String
  pub type : String
  pub payload : String

pub record Catalog : Type 0 where
  pub version : String
  pub generated_at : Option ℤ
  pub is_complete : Bool
  pub delta_update : List DeltaOperation
  pub tracks : List Track
  pub init_data_list : List InitData
  pub content_protections : List ContentProtection

-- The zero value of the Go struct.
abbrev pub zero_track : Track
zero_track = record {
  name = "";
  namespace = "";
  packaging = "";
  locmaf_version = "";
  is_live = false;
  target_latency = none;
  role = "";
  label = "";
  render_group = none;
  alt_group = none;
  init_ref = "";
  dependencies = [];
  temporal_id = none;
  spatial_id = none;
  codec = "";
  framerate = none;
  timescale = none;
  bitrate = none;
  width = none;
  height = none;
  sample_rate = none;
  channel_config = "";
  display_width = none;
  display_height = none;
  language = "";
  track_duration = none;
  event_type = "";
  parent_name = "";
  content_protection_ref_ids = [];
  accessibility = [];
}
