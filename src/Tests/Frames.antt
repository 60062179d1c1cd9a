-- ===== src/Tests/Frames.antt =====
-- Frames and headers.
use moqlivemock_svc.Base.{
  ℕ, ◌*◌, ◌/◌, ◌≡◌, refl, Bool, true, Option, none, some, if◌then◌else◌, List, [], ◌∷◌, ◌++◌, arith,
  ◌==◌,
}
use moqlivemock_svc.Base.Int.{pos}
use moqlivemock_svc.Loc.Marking.{present, get_loc_frame_marking, loc_timestamp_micros}
use moqlivemock_svc.Loc.Object.{object_timestamp, build_loc_object}
use moqlivemock_svc.Loc.RoundTrip.{whole_frame, object_timestamp-exact, build_loc_object-read}
use moqlivemock_svc.Playback.Object.{valid_playback_marking}
use moqlivemock_svc.Nal.Frame.{
  write_nalus, write_loc_video, write_loop, finished, write_failed, out_of_fuel,
}
use moqlivemock_svc.Nal.Splice.{codec_avc, splice_sei_before_vcl}
use moqlivemock_svc.Nal.Framing.{annex_b, write_loc_video-write_nalus, write_loc_video-total}
use moqlivemock_svc.Nal.Captioned.{NoSlices, StartsWithSlice, splice_sei_before_vcl-written}
use moqlivemock_svc.Tests.Data.{upper_layer}

-- An SPS and an IDR slice.
abbrev units : List (List ℕ)
units = (103 ∷ 66 ∷ []) ∷ (101 ∷ 1 ∷ 2 ∷ []) ∷ []

abbrev is_slice : ℕ → Bool
is_slice first = first == 101

object_timestamp-exact_example :
    object_timestamp 153000045001 90000 ≡ 153000045001 * 1_000_000 / 90000
object_timestamp-exact_example =
    object_timestamp-exact 153000045001 90000 (omega arith) (omega arith) (omega arith)

build_loc_object-read_example :
    let headers = (build_loc_object (1 ∷ 2 ∷ []) true 90045 90000 [] (some upper_layer)).0 in
    (loc_timestamp_micros headers ≡ some (90045 * 1_000_000 / 90000))
    × (get_loc_frame_marking headers ≡ present (whole_frame 1 true))
    × (valid_playback_marking (whole_frame 1 true) (pos 1) ≡ true)
build_loc_object-read_example =
    build_loc_object-read (1 ∷ 2 ∷ []) true 90045 90000 [] upper_layer (omega arith) (omega arith)
      (omega arith) (omega arith)

abbrev works : ℕ → Option ℕ
works k = none

-- The call after the first start code takes one byte and fails.
abbrev breaks : ℕ → Option ℕ
breaks k = if k == 1 then some 1 else none

test_breaks : write_loc_video breaks (write_nalus units) ≡ (0 ∷ 0 ∷ 0 ∷ 1 ∷ 103 ∷ [], write_failed)
unfolding write_loop write_nalus
test_breaks = refl

write_loc_video-write_nalus_example :
    write_loc_video works (write_nalus units) ≡ (annex_b units, finished)
write_loc_video-write_nalus_example =
    write_loc_video-write_nalus works units (λ k. refl) (omega arith, (omega arith, tt))

write_loc_video-total_example :
    ¬ ((write_loc_video breaks (0 ∷ 0 ∷ 0 ∷ 9 ∷ 1 ∷ [])).1 ≡ out_of_fuel)
write_loc_video-total_example = write_loc_video-total breaks (0 ∷ 0 ∷ 0 ∷ 9 ∷ 1 ∷ [])

splice_sei_before_vcl-written_example :
    (out : List ℕ) × (before : List (List ℕ)) × (after : List (List ℕ)) × (splice_sei_before_vcl
        is_slice is_slice
        (λ bytes. some units)
        []
        (6 ∷ 4 ∷ [])
        codec_avc
      ≡ some out)
    × (units ≡ before ++ after)
    × NoSlices is_slice is_slice codec_avc before
    × StartsWithSlice is_slice is_slice codec_avc after
    × (write_loc_video works out ≡ (annex_b before ++ annex_b ((6 ∷ 4 ∷ []) ∷ after), finished))
splice_sei_before_vcl-written_example =
    splice_sei_before_vcl-written is_slice is_slice (λ bytes. some units) works [] (6 ∷ 4 ∷ [])
      codec_avc units refl (omega arith, (omega arith, tt)) (omega arith) (λ k. refl)
