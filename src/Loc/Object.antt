-- ===== src/Loc/Object.antt =====
-- `buildLOCObject` of internal/pub/pub.go.
use moqlivemock_svc.Base.{
  ℕ, ◌+◌, ◌*◌, ◌/◌, ◌%◌, Bool, true, ◌&&◌, Option, none, some, List, [], ◌∷◌, ◌++◌, ltb, ◌==◌,
  if◌then◌else◌, length,
}
use moqlivemock_svc.Base.Words.{u64}
use moqlivemock_svc.Asset.Types.{Av1SpatialLayer}
use moqlivemock_svc.Loc.Marking.{
  KeyValuePair, loc_prop_timestamp, loc_prop_frame_mark, loc_frame_marking,
}

-- `(sampleTime/timebase)*1_000_000 + (sampleTime%timebase)*1_000_000/timebase`
unfoldable pub object_timestamp : ℕ → ℕ → ℕ
object_timestamp sample_time timebase =
    u64 (
      u64 (sample_time / timebase * 1_000_000)
      + u64 (sample_time % timebase * 1_000_000) / timebase)

abbrev pub is_base : Option Av1SpatialLayer → Bool
is_base none = true
is_base (some layer) = layer.spatial_id == 0

abbrev pub frame_mark : Option Av1SpatialLayer → Bool → List KeyValuePair
frame_mark none sync = []
frame_mark (some layer) sync =
    record { type = loc_prop_frame_mark; value_var_int = loc_frame_marking layer.spatial_id sync }
    ∷ []

unfoldable pub build_loc_object :
    List ℕ → Bool → ℕ → ℕ → List ℕ → Option Av1SpatialLayer → List KeyValuePair × List ℕ
unfolding object_timestamp
build_loc_object bytes sync sample_time timebase video_config spatial_layer = (
  record { type = loc_prop_timestamp; value_var_int = object_timestamp sample_time timebase }
      ∷ frame_mark spatial_layer sync,
  if sync && ltb 0 (length video_config) && is_base spatial_layer
      then video_config ++ bytes
      else bytes,
)
