-- ===== src/Loc/Marking.antt =====
-- LOC extension headers: `locFrameMarking` and `locPriority` of internal/pub/pub.go, and
-- `getLOCFrameMarking` and `locTimestampMicros` of internal/sub/loc.go.
use Prim.Native.Nat.{bit_and, bit_or}
use moqlivemock_svc.Base.{
  ℕ, ◌+◌, ◌*◌, ◌/◌, Bool, not, Option, none, some, List, [], ◌∷◌, ltb, ◌==◌, if◌then◌else◌,
}
use moqlivemock_svc.Base.Words.{u8}

-- The part of moqtransport.KeyValuePair that the code reads: a property of varint type.
pub record KeyValuePair : Type 0 where
  pub type : ℕ
  pub value_var_int : ℕ

abbrev pub loc_prop_frame_mark : ℕ
loc_prop_frame_mark = 0x04

abbrev pub loc_prop_timestamp : ℕ
loc_prop_timestamp = 0x06

pub record LocFrameMarking : Type 0 where
  pub start : Bool
  pub last : Bool
  pub independent : Bool
  pub discardable : Bool
  pub base_layer_sync : Bool
  pub temporal_id : ℕ
  pub layer_id : ℕ

-- The three results of `getLOCFrameMarking`: no such header, a header wider than two bytes (its
-- error), and the marking.
pub data Marking : Type 0 where
  absent too_wide : Marking
  present : LocFrameMarking → Marking

-- `flags&mask != 0`
abbrev pub has_bit : ℕ → ℕ → Bool
has_bit flags mask = not (bit_and flags mask == 0)

unfoldable pub decode_marking : ℕ → LocFrameMarking
decode_marking value =
    let flags = u8 (value / 256) in
    record {
      start = has_bit flags 0x80;
      last = has_bit flags 0x40;
      independent = has_bit flags 0x20;
      discardable = has_bit flags 0x10;
      base_layer_sync = has_bit flags 0x08;
      temporal_id = bit_and flags 0x07;
      layer_id = u8 value;
    }

unfoldable pub get_loc_frame_marking : List KeyValuePair → Marking
unfolding decode_marking
get_loc_frame_marking [] = absent
get_loc_frame_marking (kv ∷ headers) =
    let rest = get_loc_frame_marking headers in
    if kv.type == loc_prop_frame_mark
    then (if ltb 0xffff kv.value_var_int
        then too_wide
        else present (decode_marking kv.value_var_int))
    else rest

unfoldable pub loc_timestamp_micros : List KeyValuePair → Option ℕ
loc_timestamp_micros [] = none
loc_timestamp_micros (kv ∷ headers) =
    let rest = loc_timestamp_micros headers in
    if kv.type == loc_prop_timestamp then some kv.value_var_int else rest

-- The publisher's side. `first` is a byte, so the shift by 8 stays inside uint64.
unfoldable pub loc_frame_marking : ℕ → Bool → ℕ
loc_frame_marking spatial_id independent =
    let first = if independent then bit_or 0xc0 0x20 else 0xc0 in bit_or (first * 256) spatial_id

abbrev pub media_priority : ℕ
media_priority = 128

-- `uint8(MediaPriority) + spatialID` wraps at 256.
unfoldable pub loc_priority : ℕ → ℕ
loc_priority spatial_id = u8 (media_priority + spatial_id)
