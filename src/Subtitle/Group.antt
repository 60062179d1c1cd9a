-- ===== src/Subtitle/Group.antt =====
-- `GenSubtitleGroup` of internal/subtitle.go, with the media data of both formats; the program makes
-- no track of another.
use moqlivemock_svc.Base.{
  ℕ, suc, ◌+◌, ◌*◌, ◌/◌, ◌%◌, true, Option, none, some, List, [], ◌∷◌, length,
}
use moqlivemock_svc.Base.Int.{ℤ}
use moqlivemock_svc.Base.Words.{u32, u64}
use moqlivemock_svc.Asset.Types.{FullSample, SubtitleTrack, wvtt, stpp}
use moqlivemock_svc.Subtitle.Cues.{
  CueItvl, cue_itvls, division_by_zero, cues_out_of_fuel, calc_cue_itvls, wvtt_samples,
}

pub record SubtitleGroup : Type 0 where
  pub id : ℕ
  pub start_time : ℕ
  pub end_time : ℕ
  pub start_nr : ℕ
  pub end_nr : ℕ
  pub objects : List (List ℕ)

-- The cue's number in its group, its ends, and the second it shows.
pub record StppTimeCue : Type 0 where
  pub cue_nr : ℕ
  pub begin_ms : ℤ
  pub finish_ms : ℤ
  pub shown_ms : ℕ

unfoldable pub stpp_cues : ℕ → List CueItvl → List StppTimeCue
stpp_cues i [] = []
stpp_cues i (ci ∷ itvls) =
    record { cue_nr = i; begin_ms = ci.start_ms; finish_ms = ci.end_ms; shown_ms = ci.utc_s * 1000 }
    ∷ stpp_cues (suc i) itvls

-- `msToTTMLTime`: the four numbers that it prints, of a time that is not negative.
abbrev pub ms_to_ttml_time : ℕ → ℕ × (ℕ × (ℕ × ℕ))
ms_to_ttml_time ms = (
  ms / 3600000,
  (ms % 3600000 / 60000, (ms % 3600000 % 60000 / 1000, ms % 3600000 % 60000 % 1000)),
)

-- `payload` is `makeWvttCuePayload` of the track; `execute` is the template on the track, the
-- group's number and the cues; `encode` is mp4ff's segment of one fragment with these samples.
module _ (payload : SubtitleTrack → ℕ → ℕ → List ℕ)
    (execute : SubtitleTrack → ℕ → List StppTimeCue → Option (List ℕ))
    (encode : ℕ → List FullSample → Option (List ℕ)) where
  abbrev pub stpp_sample : ℕ → ℕ → List ℕ → FullSample
  stpp_sample base duration text = record {
    sync = true;
    dur = duration;
    size = u32 (length text);
    decode_time = base;
    bytes = text;
  }

  -- The samples of the group's one segment; `none` is an error, or the panic of a cue duration of 0.
  unfoldable pub subtitle_samples : SubtitleTrack → ℕ → ℕ → ℕ → Option (List FullSample)
  unfolding wvtt_samples stpp_cues calc_cue_itvls
  subtitle_samples st nr base dur = elim st.format [
    | wvtt ↦ wvtt_samples (payload st) nr base dur base st.cue_dur_ms
    | stpp ↦ elim (calc_cue_itvls base dur base st.cue_dur_ms) [
      | cue_itvls itvls ↦ elim (execute st nr (stpp_cues 0 itvls)) [
        | none ↦ none
        | some text ↦ some (stpp_sample base dur text ∷ [])
      ]
      | division_by_zero ↦ none
      | cues_out_of_fuel ↦ none
    ]
  ]

  unfoldable pub gen_subtitle_group : SubtitleTrack → ℕ → ℕ → Option SubtitleGroup
  unfolding subtitle_samples
  gen_subtitle_group st group_nr group_dur_ms =
      let base = u64 (group_nr * group_dur_ms) in
      elim (subtitle_samples st (u32 group_nr) base group_dur_ms) [
        | none ↦ none
        | some samples ↦ elim (encode (u32 group_nr) samples) [
          | none ↦ none
          | some object ↦ some (record {
            id = u32 group_nr;
            start_time = base;
            end_time = u64 (base + group_dur_ms);
            start_nr = group_nr;
            end_nr = u64 (group_nr + 1);
            objects = object ∷ [];
          })
        ]
      ]
