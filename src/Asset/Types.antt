-- ===== src/Asset/Types.antt =====
-- The data of internal/asset.go and internal/media.go that the publisher works on. What belongs to
-- mp4ff alone (init segments, keys, running IVs) is left out.
use moqlivemock_svc.Base.{ℕ, Bool, Option, List, String}

-- mp4.FullSample; `sync` is what its method `IsSync` returns.
pub record FullSample : Type 0 where
  pub sync : Bool
  pub dur : ℕ
  pub size : ℕ
  pub decode_time : ℕ
  pub bytes : List ℕ

pub record AvcData : Type 0 where
  pub spss : List (List ℕ)
  pub ppss : List (List ℕ)
  pub codec : String
  pub width : ℕ
  pub height : ℕ

pub record HevcData : Type 0 where
  pub vpss : List (List ℕ)
  pub spss : List (List ℕ)
  pub ppss : List (List ℕ)
  pub codec : String
  pub width : ℕ
  pub height : ℕ

pub record Av1SpatialLayer : Type 0 where
  pub spatial_id : ℕ
  pub width : ℕ
  pub height : ℕ
  pub samples : List (List ℕ)
  pub total_size : ℕ

pub record Av1Data : Type 0 where
  pub codec : String
  pub width : ℕ
  pub height : ℕ
  pub config_obus : List ℕ
  pub loc_needs_config : Bool
  pub spatial_layers : List Av1SpatialLayer

-- AACData, OpusData and AC3Data have the same fields.
pub record AudioData : Type 0 where
  pub codec : String
  pub sample_rate : ℕ
  pub channel_config : String

-- The types that implement the interface CodecSpecificData.
pub data CodecSpecificData : Type 0 where
  avc : AvcData → CodecSpecificData
  hevc : HevcData → CodecSpecificData
  av1 : Av1Data → CodecSpecificData
  aac opus ac3 : AudioData → CodecSpecificData

-- The method `Codec`.
abbrev pub codec_of : CodecSpecificData → String
codec_of (avc d) = d.codec
codec_of (hevc d) = d.codec
codec_of (av1 d) = d.codec
codec_of (aac d) = d.codec
codec_of (opus d) = d.codec
codec_of (ac3 d) = d.codec

pub data ProtectionType : Type 0 where
  unprotected drm eccp : ProtectionType

-- `cc608` is whether an enabled caption generator is installed.
pub record ContentTrack : Type 0 where
  pub name : String
  pub content_type : String
  pub language : String
  pub sample_bitrate : ℕ
  pub time_scale : ℕ
  pub duration : ℕ
  pub gop_length : ℕ
  pub sample_dur : ℕ
  pub loop_dur : ℕ
  pub sample_batch : ℕ
  pub samples : List FullSample
  pub spec_data : CodecSpecificData
  pub protection : ProtectionType
  pub content_protection_ref_ids : List String
  pub cc608 : Bool

pub record TrackGroup : Type 0 where
  pub alt_group_id : ℕ
  pub tracks : List ContentTrack

-- `DefaultCueDurMS`, and the formats "wvtt" and "stpp".
pub data SubtitleFormat : Type 0 where
  wvtt stpp : SubtitleFormat

pub record SubtitleTrack : Type 0 where
  pub name : String
  pub format : SubtitleFormat
  pub language : String
  pub time_scale : ℕ
  pub cue_dur_ms : ℕ
  pub region : ℕ

pub record Asset : Type 0 where
  pub name : String
  pub groups : List TrackGroup
  pub loop_dur_ms : ℕ
  pub subtitle_tracks : List SubtitleTrack

-- A track of the asset, or one spatial layer of it.
pub record LocTrack : Type 0 where
  pub content_track : ContentTrack
  pub spatial_layer : Option Av1SpatialLayer
