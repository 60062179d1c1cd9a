-- ===== src/Loc/RoundTrip.antt =====
-- The subscriber reads back what the publisher wrote into the headers of a LOC object.
use native.Mathlib.Nat.{div-add-mod, mod-lt}
use moqlivemock_svc.Base.{
  ℕ, zero, suc, ◌+◌, ◌*◌, ◌/◌, ◌%◌, ◌<◌, ◌≡◌, refl, ap, Bool, true, false, some, List, [], ◌∷◌,
  arith, ◌==◌, ==_iff, if◌then◌else◌, Bool-cases, inl, inr,
}
use moqlivemock_svc.Base.Int.{pos}
use moqlivemock_svc.Base.Words.{u64}
use moqlivemock_svc.Asset.Types.{Av1SpatialLayer}
use moqlivemock_svc.Loc.Marking.{
  LocFrameMarking, present, decode_marking, get_loc_frame_marking, loc_timestamp_micros,
  loc_frame_marking, loc_prop_timestamp, loc_prop_frame_mark,
}
use moqlivemock_svc.Timing.Round.{quotient_iff}
use moqlivemock_svc.Loc.Object.{object_timestamp, build_loc_object}
use moqlivemock_svc.Playback.Object.{valid_playback_marking}

-- The marking of a whole frame of one layer.
abbrev pub whole_frame : ℕ → Bool → LocFrameMarking
whole_frame spatial_id independent = record {
  start = true;
  last = true;
  independent = independent;
  discardable = false;
  base_layer_sync = false;
  temporal_id = 0;
  layer_id = spatial_id;
}

-- Do two functions agree on the numbers below a bound?
agree : (ℕ → ℕ) → (ℕ → ℕ) → ℕ → Bool
agree f g zero = true
agree f g (suc bound) = if f bound == g bound then agree f g bound else false

agree-value :
    (f g : ℕ → ℕ) (bound byte : ℕ) → byte < bound → agree f g bound ≡ true → f byte ≡ g byte
unfolding agree
agree-value f g zero byte inside same = absurd (omega arith)
agree-value f g (suc bound) byte inside same = elim (Bool-cases (f bound == g bound)) [
  | inr differ ↦ absurd (ground arith)
  | inl equal ↦
      let rest : agree f g bound ≡ true = ground arith in
      elim (Bool-cases (byte == bound)) [
        | inl last ↦ rw ((==_iff byte bound).0 last) ((==_iff (f bound) (g bound)).0 equal)
        | inr earlier ↦ agree-value f g bound byte (ground arith) rest
      ]
]

sync_marks : agree (λ byte. loc_frame_marking byte true) (λ byte. 57344 + byte) 256 ≡ true
unfolding agree loc_frame_marking
sync_marks = refl

other_marks : agree (λ byte. loc_frame_marking byte false) (λ byte. 49152 + byte) 256 ≡ true
unfolding agree loc_frame_marking
other_marks = refl

abbrev first_byte : Bool → ℕ
first_byte true = 224
first_byte false = 192

loc_frame_marking-sum :
    (spatial_id : ℕ) (independent : Bool)
    → spatial_id < 256
    → loc_frame_marking spatial_id independent ≡ first_byte independent * 256 + spatial_id
loc_frame_marking-sum x true h =
    agree-value (λ byte. loc_frame_marking byte true) (λ byte. 57344 + byte) 256 x h sync_marks
loc_frame_marking-sum x false h =
    agree-value (λ byte. loc_frame_marking byte false) (λ byte. 49152 + byte) 256 x h other_marks

decode_marking-encode :
    (spatial_id : ℕ) (independent : Bool)
    → spatial_id < 256
    → decode_marking (loc_frame_marking spatial_id independent) ≡ whole_frame spatial_id independent
unfolding decode_marking
decode_marking-encode x true h =
    let first : (224 * 256 + x) / 256 % 256 ≡ 224 = omega arith in
    let last : (224 * 256 + x) % 256 ≡ x = omega arith in
    rw (loc_frame_marking-sum x true h, first, last)
decode_marking-encode x false h =
    let first : (192 * 256 + x) / 256 % 256 ≡ 192 = omega arith in
    let last : (192 * 256 + x) % 256 ≡ x = omega arith in
    rw (loc_frame_marking-sum x false h, first, last)

-- The two parts of the timestamp add up to the product divided at once.
split_quotient :
    (s tb : ℕ) → 0 < tb → s / tb * 1_000_000 + s % tb * 1_000_000 / tb ≡ s * 1_000_000 / tb
split_quotient s tb h =
    let split = div-add-mod s tb in
    let part = div-add-mod (s % tb * 1_000_000) tb in
    let rest = mod-lt (s % tb * 1_000_000) h in
    let whole = ap (λ (t : ℕ). t * 1_000_000) split in
    (quotient_iff (s / tb * 1_000_000 + s % tb * 1_000_000 / tb) (s * 1_000_000) tb h).0
      (omega (arith, part, rest, whole), omega (arith, part, rest, whole))

-- The timestamp is the sample's time in microseconds, rounded down, where that fits a uint64, although
-- the product alone may not.
pub object_timestamp-exact :
    (s tb : ℕ)
    → 0 < tb
    → tb < 4294967296
    → s * 1_000_000 / tb < 18446744073709551616
    → object_timestamp s tb ≡ s * 1_000_000 / tb
unfolding object_timestamp
object_timestamp-exact s tb h small fits =
    let sum = split_quotient s tb h in
    let rest = mod-lt s h in
    let second : u64 (s % tb * 1_000_000) ≡ s % tb * 1_000_000 = omega (arith, rest) in
    let first : u64 (s / tb * 1_000_000) ≡ s / tb * 1_000_000 = omega (arith, sum) in
    rw (first, second, sum) (omega arith)

whole_frame-valid :
    (spatial_id : ℕ) (independent : Bool)
    → valid_playback_marking (whole_frame spatial_id independent) (pos spatial_id) ≡ true
unfolding valid_playback_marking
whole_frame-valid x independent = ground arith

-- The only header that carries a marking.
get_loc_frame_marking-mark :
    (t x : ℕ) (sync : Bool)
    → x < 256
    → get_loc_frame_marking (
        record { type = loc_prop_timestamp; value_var_int = t }
        ∷ record { type = loc_prop_frame_mark; value_var_int = loc_frame_marking x sync }
        ∷ [])
      ≡ present (whole_frame x sync)
unfolding get_loc_frame_marking
get_loc_frame_marking-mark t x true h =
    let sum = loc_frame_marking-sum x true h in ground (arith, sum, decode_marking-encode x true h)
get_loc_frame_marking-mark t x false h =
    let sum = loc_frame_marking-sum x false h in
    ground (arith, sum, decode_marking-encode x false h)

-- The headers of an object of a spatial layer, read by the subscriber: the timestamp is the sample's
-- time in microseconds, the marking is that of a whole frame of the layer with the sync flag of the
-- sample, and the simulated player accepts it for the layer.
pub build_loc_object-read :
    (bytes : List ℕ) (sync : Bool) (s tb : ℕ) (video_config : List ℕ) (layer : Av1SpatialLayer)
    → layer.spatial_id < 256
    → 0 < tb
    → tb < 4294967296
    → s * 1_000_000 / tb < 18446744073709551616
    → let headers = (build_loc_object bytes sync s tb video_config (some layer)).0 in
      (loc_timestamp_micros headers ≡ some (s * 1_000_000 / tb))
      × (get_loc_frame_marking headers ≡ present (whole_frame layer.spatial_id sync))
      × (valid_playback_marking (whole_frame layer.spatial_id sync) (pos layer.spatial_id) ≡ true)
unfolding build_loc_object loc_timestamp_micros
build_loc_object-read bytes sync s tb video_config layer byte h small fits = (
  ap some (object_timestamp-exact s tb h small fits),
  get_loc_frame_marking-mark (object_timestamp s tb) layer.spatial_id sync byte,
  whole_frame-valid layer.spatial_id sync,
)
