-- ===== src/Subtitle/Cues.antt =====
-- `calcCueItvls`, `fullSample`, `createSubtitlesWvttMediaData` and `GenSubtitleGroup` of
-- internal/subtitle.go. The texts and boxes come from fmt, time, text/template and mp4ff.
use moqlivemock_svc.Base.{
  ℕ, zero, suc, ◌+◌, ◌-◌, ◌*◌, ◌/◌, true, false, Option, none, some, List, [], ◌∷◌, ltb, leb, ◌==◌,
  if◌then◌else◌, length,
}
use moqlivemock_svc.Base.Int.{ℤ, pos, ◌+ℤ◌, ◌-ℤ◌, ltb_ℤ}
use moqlivemock_svc.Base.Words.{u32, bits_of}
use moqlivemock_svc.Asset.Types.{FullSample}

pub record CueItvl : Type 0 where
  pub start_ms : ℤ
  pub end_ms : ℤ
  pub utc_s : ℕ

-- `int(math.Ceil(float64(cueDur) * 0.001))`, of a duration below 2 ^ 40, where the product rounds to
-- the same side of each integer.
abbrev pub cue_full_s : ℕ → ℕ
cue_full_s cue_dur = (cue_dur + 999) / 1000

-- What the code's division by zero and the loop make: a panic, the intervals, or the model's own end.
pub data Cues : Type 0 where
  cue_itvls : List CueItvl → Cues
  division_by_zero cues_out_of_fuel : Cues

-- The first two `if`s of a round move the ends into the segment.
abbrev pub cue_at : ℕ → ℕ → ℕ → ℕ → ℕ → CueItvl
cue_at seg_start seg_dur utc_start cue_dur s =
    let diff = pos seg_start -ℤ pos utc_start in
    record {
      start_ms = pos (if ltb (s * 1000) utc_start then utc_start else s * 1000) +ℤ diff;
      end_ms =
          pos (
            if ltb (utc_start + seg_dur) (s * 1000 + cue_dur)
            then utc_start + seg_dur
            else s * 1000 + cue_dur)
          +ℤ diff;
      utc_s = s;
    }

abbrev pub cons_cue : CueItvl → Cues → Cues
cons_cue ci (cue_itvls itvls) = cue_itvls (ci ∷ itvls)
cons_cue ci other = other

unfoldable pub cue_loop : ℕ → ℕ → ℕ → ℕ → ℕ → ℕ → Cues
cue_loop zero seg_start seg_dur utc_start cue_dur s = cues_out_of_fuel
cue_loop (suc fuel) seg_start seg_dur utc_start cue_dur s =
    elim (leb s ((utc_start + seg_dur) / (cue_full_s cue_dur * 1000))) [
      | false ↦ cue_itvls []
      | true ↦ elim (s * 1000 == utc_start + seg_dur) [
        | true ↦ cue_itvls []
        | false ↦
            cons_cue (cue_at seg_start seg_dur utc_start cue_dur s)
              (cue_loop fuel seg_start seg_dur utc_start cue_dur (s + cue_full_s cue_dur))
      ]
    ]

-- The arguments are not negative. A round raises the second by one at least.
unfoldable pub calc_cue_itvls : ℕ → ℕ → ℕ → ℕ → Cues
unfolding cue_loop
calc_cue_itvls seg_start seg_dur utc_start cue_dur =
    let full_ms = cue_full_s cue_dur * 1000 in
    let first = utc_start / full_ms in
    if full_ms == 0
    then division_by_zero
    else cue_loop (suc (suc ((utc_start + seg_dur) / full_ms - first))) seg_start seg_dur utc_start
        cue_dur first

abbrev pub full_sample : ℤ → ℤ → List ℕ → FullSample
full_sample start end data_bytes = record {
  sync = true;
  dur = u32 (bits_of (end -ℤ start));
  size = u32 (length data_bytes);
  decode_time = bits_of start;
  bytes = data_bytes;
}

-- The empty VTT cue box.
abbrev pub vtte : List ℕ
vtte = 0 ∷ 0 ∷ 0 ∷ 8 ∷ 118 ∷ 116 ∷ 116 ∷ 101 ∷ []

-- `makeWvttCuePayload` of the time and the group's number, for the track's language and region.
module _ (make_wvtt_cue_payload : ℕ → ℕ → List ℕ) where
  -- The samples of the cues and of the gaps before and after them.
  unfoldable pub wvtt_loop : ℕ → ℤ → ℤ → List CueItvl → List FullSample
  wvtt_loop nr seg_end curr_end [] =
      if ltb_ℤ curr_end seg_end then full_sample curr_end seg_end vtte ∷ [] else []
  wvtt_loop nr seg_end curr_end (ci ∷ itvls) =
      let rest = wvtt_loop nr seg_end ci.end_ms itvls in
      let cue = full_sample ci.start_ms ci.end_ms (make_wvtt_cue_payload (ci.utc_s * 1000) nr) in
      if ltb_ℤ curr_end ci.start_ms
      then full_sample curr_end ci.start_ms vtte ∷ cue ∷ rest
      else cue ∷ rest

  unfoldable pub wvtt_samples : ℕ → ℕ → ℕ → ℕ → ℕ → Option (List FullSample)
  unfolding calc_cue_itvls wvtt_loop
  wvtt_samples nr base dur utc_time_ms cue_dur =
      elim (calc_cue_itvls base dur utc_time_ms cue_dur) [
        | cue_itvls itvls ↦ some (wvtt_loop nr (pos (base + dur)) (pos base) itvls)
        | division_by_zero ↦ none
        | cues_out_of_fuel ↦ none
      ]

abbrev pub curr_subtitle_group_nr : ℕ → ℕ → ℕ
curr_subtitle_group_nr now_ms group_dur_ms = now_ms / group_dur_ms
