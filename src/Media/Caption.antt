-- ===== src/Media/Caption.antt =====
-- Caption schedules: `CodecFor` and `SEISchedule` of internal/cc608/cc608.go, `newGroupCCSplice` of
-- internal/moqgroup.go and `videoCaptioner` of internal/pub/caption.go.
use moqlivemock_svc.Base.{
  ℕ, ◌-◌, ◌*◌, Bool, true, not, ◌||◌, Option, none, some, List, String, str_eq, ltb, leb, ◌==◌,
  if◌then◌else◌, length, get_elem?,
}
use moqlivemock_svc.Asset.Types.{ContentTrack, codec_of}
use moqlivemock_svc.Nal.Splice.{Codec, codec_avc, codec_hevc}

-- The frame rate that the source computes as a float64: the two numbers that it divides.
pub record FrameRate : Type 0 where
  pub time_scale : ℕ
  pub sample_dur : ℕ

-- `has_prefix` is strings.HasPrefix, with the prefix second.
abbrev pub codec_for : (String → String → Bool) → String → Option Codec
codec_for has_prefix codec =
    if has_prefix codec "avc"
    then some codec_avc
    else (if has_prefix codec "hev" || has_prefix codec "hvc" then some codec_hevc else none)

pub record CcSplice : Type 0 where
  pub group_start_nr : ℕ
  pub sei : List (List ℕ)
  pub codec : Codec

-- `build` is go-608's: `generate.BuildUnitCues`, which may fail, and `carriage.FrameSEINALU` of each
-- frame, for the group's start in milliseconds, the frame rate, the number of frames and the codec.
module _ (has_prefix : String → String → Bool)
    (build : ℕ → FrameRate → ℕ → Codec → Option (List (List ℕ))) where
  -- `none` is a nil schedule.
  unfoldable pub sei_schedule : Bool → ℕ → FrameRate → ℕ → Codec → Option (List (List ℕ))
  sei_schedule enabled group_nr fps n_frames codec =
      if not enabled || n_frames == 0 then none else build (group_nr * 1000) fps n_frames codec

  abbrev pub captions_off : ContentTrack → ℕ → ℕ → Bool
  captions_off t start_nr end_nr =
      not t.cc608 || not (str_eq t.content_type "video") || t.sample_dur == 0 || leb end_nr start_nr

  unfoldable pub new_group_cc_splice : ContentTrack → ℕ → ℕ → ℕ → Option CcSplice
  unfolding sei_schedule
  new_group_cc_splice t group_nr start_nr end_nr =
      if captions_off t start_nr end_nr
      then none
      else elim (codec_for has_prefix (codec_of t.spec_data)) [
        | none ↦ none
        | some codec ↦
            elim (sei_schedule t.cc608 group_nr
              (record { time_scale = t.time_scale; sample_dur = t.sample_dur }) (end_nr - start_nr)
              codec) [
                | none ↦ none
                | some sei ↦ some (record { group_start_nr = start_nr; sei = sei; codec = codec })
              ]
      ]

  -- The zero captioner, which is off, is `none`.
  pub record VideoCaptioner : Type 0 where
    pub codec : Codec
    pub fps : FrameRate

  unfoldable pub new_video_captioner : ContentTrack → Option VideoCaptioner
  new_video_captioner t =
      if not t.cc608
        || not (str_eq t.content_type "video")
        || t.sample_dur == 0
        || t.time_scale == 0
      then none
      else elim (codec_for has_prefix (codec_of t.spec_data)) [
        | none ↦ none
        | some codec ↦ some (record {
          codec = codec;
          fps = record { time_scale = t.time_scale; sample_dur = t.sample_dur };
        })
      ]

  -- A captioner that is on has an enabled generator.
  unfoldable pub schedule : Option VideoCaptioner → ℕ → ℕ → ℕ → Option (List (List ℕ))
  unfolding sei_schedule
  schedule none anchor_sec start_nr end_nr = none
  schedule (some c) anchor_sec start_nr end_nr =
      if leb end_nr start_nr
      then none
      else sei_schedule true anchor_sec c.fps (end_nr - start_nr) c.codec

-- The SEI of a frame of the group, where the schedule has one that is not empty.
unfoldable pub frame_sei : List (List ℕ) → ℕ → ℕ → Option (List ℕ)
frame_sei sei sample_nr group_start_nr = elim (get_elem? sei (sample_nr - group_start_nr)) [
  | none ↦ none
  | some nal ↦ if ltb sample_nr group_start_nr || length nal == 0 then none else some nal
]

-- `splice` is `SpliceSEIBeforeVCL` of a frame and a SEI for the codec; its error leaves the frame.
unfoldable pub splice_frame :
    (List ℕ → List ℕ → Option (List ℕ)) → List ℕ → Option (List (List ℕ)) → ℕ → ℕ → List ℕ
unfolding frame_sei
splice_frame splice bytes none sample_nr group_start_nr = bytes
splice_frame splice bytes (some sei) sample_nr group_start_nr =
    elim (frame_sei sei sample_nr group_start_nr) [
      | none ↦ bytes
      | some nal ↦ elim (splice bytes nal) [ none ↦ bytes | some spliced ↦ spliced ]
    ]
