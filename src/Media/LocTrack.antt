-- ===== src/Media/LocTrack.antt =====
-- The loop of `PublishLOCTrack` of internal/pub/pub.go over the samples of a group, without its waits.
use moqlivemock_svc.Base.{
  ℕ, zero, suc, ◌+◌, ◌-◌, ◌*◌, Bool, Option, none, some, List, [], ◌∷◌, get_elem?, if◌then◌else◌,
}
use moqlivemock_svc.Base.Words.{u64}
use moqlivemock_svc.Asset.Types.{
  FullSample, Av1SpatialLayer, CodecSpecificData, avc, hevc, av1, LocTrack,
}
use moqlivemock_svc.Timing.Group.{calc_moq_group}
use moqlivemock_svc.Timing.Sample.{calc_sample}
use moqlivemock_svc.Loc.Marking.{KeyValuePair}
use moqlivemock_svc.Loc.Object.{build_loc_object}
use moqlivemock_svc.Nal.Frame.{avc_loc_video_config, hevc_loc_video_config}
use moqlivemock_svc.Media.Caption.{splice_frame}

pub record LocObject : Type 0 where
  pub object_id : ℕ
  pub headers : List KeyValuePair
  pub payload : List ℕ

-- How a group ends: all objects written, a write that failed or a context that ended, or the panic
-- of an index out of range; with the objects written before.
pub data GroupEnd : Type 0 where
  complete stopped out_of_range : GroupEnd

abbrev pub cons_object : LocObject → List LocObject × GroupEnd → List LocObject × GroupEnd
cons_object o rest = (o ∷ rest.0, rest.1)

-- `has_sequence_header` is mp4ff's search of a sample for a sequence header OBU.
abbrev pub object_config : (List ℕ → Bool) → CodecSpecificData → List ℕ → List ℕ
object_config has_sequence_header (avc d) bytes = avc_loc_video_config d
object_config has_sequence_header (hevc d) bytes = hevc_loc_video_config d
object_config has_sequence_header (av1 d) bytes =
    if has_sequence_header bytes then [] else d.config_obus
object_config has_sequence_header _ bytes = []

-- The bytes of a sample: those of the spatial layer, where the track is one.
abbrev pub sample_bytes : Option Av1SpatialLayer → ℕ → FullSample → Option (List ℕ)
sample_bytes none orig_nr sample = some sample.bytes
sample_bytes (some layer) orig_nr sample = get_elem? layer.samples orig_nr

module _ (has_sequence_header : List ℕ → Bool) (splice : List ℕ → List ℕ → Option (List ℕ)) where
  abbrev pub loc_object : LocTrack → Option (List (List ℕ)) → ℕ → ℕ → ℕ → Bool → List ℕ → LocObject
  loc_object t sei start_nr sample_nr object_id sync raw =
      let bytes = splice_frame splice raw sei sample_nr start_nr in
      let built =
        build_loc_object bytes sync (u64 (sample_nr * t.content_track.sample_dur))
          t.content_track.time_scale
          (object_config has_sequence_header t.content_track.spec_data bytes) t.spatial_layer in
      record { object_id = object_id; headers = built.0; payload = built.1 }

  -- `ok` says of an object number whether its write comes to pass.
  unfoldable pub loc_objects :
      (ℕ → Bool) → LocTrack → Option (List (List ℕ)) → ℕ → ℕ → ℕ → ℕ → List LocObject × GroupEnd
  unfolding calc_sample
  loc_objects ok t sei start_nr sample_nr object_id zero = ([], complete)
  loc_objects ok t sei start_nr sample_nr object_id (suc count) =
      let rest = loc_objects ok t sei start_nr (sample_nr + 1) (object_id + 1) count in
      let orig_nr = (calc_sample t.content_track sample_nr).1 in
      elim (get_elem? t.content_track.samples orig_nr) [
        | none ↦ ([], out_of_range)
        | some sample ↦ elim (sample_bytes t.spatial_layer orig_nr sample) [
          | none ↦ ([], out_of_range)
          | some raw ↦
              if ok object_id
              then cons_object (loc_object t sei start_nr sample_nr object_id sample.sync raw) rest
              else ([], stopped)
        ]
      ]

  -- The objects of a group, from the range that `CalcLOCGroupRange` gives.
  unfoldable pub loc_group :
      (ℕ → Bool) → LocTrack → Option (List (List ℕ)) → ℕ → ℕ → List LocObject × GroupEnd
  unfolding loc_objects calc_moq_group
  loc_group ok t sei group_nr constant_dur_ms =
      let range = calc_moq_group t.content_track group_nr constant_dur_ms in
      loc_objects ok t sei range.0 range.0 0 (range.1 - range.0)
