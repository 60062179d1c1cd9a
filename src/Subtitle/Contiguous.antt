-- ===== src/Subtitle/Contiguous.antt =====
-- The samples of a WVTT group of internal/subtitle.go on the group's time line.
use moqlivemock_svc.Base.{
  ℕ, zero, suc, ◌+◌, ◌-◌, ◌*◌, ◌≡◌, ◌<◌, ◌≤◌, refl, Option, none, some, List, [], ◌∷◌, ◌++◌, arith,
  Bool-cases, Option-cases, inl, inr, ltb,
}
use moqlivemock_svc.Base.Int.{pos, ◌-ℤ◌}
use moqlivemock_svc.Base.Words.{u32, u64}
use moqlivemock_svc.Asset.Types.{FullSample, SubtitleTrack, wvtt}
use moqlivemock_svc.Subtitle.Cues.{full_sample, vtte}
use moqlivemock_svc.Subtitle.Seconds.{seconds, second_samples, wvtt_samples-seconds}
use moqlivemock_svc.Subtitle.Group.{StppTimeCue, subtitle_samples, gen_subtitle_group}

-- Each sample starts where the one before ends and lasts, from the first time to the last.
abbrev pub IsContiguous : ℕ → ℕ → List FullSample → Type 0
IsContiguous from end [] = from ≡ end
IsContiguous from end (sample ∷ samples) =
    (sample.decode_time ≡ from) × (0 < sample.dur) × IsContiguous (from + sample.dur) end samples

IsContiguous-append :
    (from between end : ℕ) (xs ys : List FullSample)
    → IsContiguous from between xs
    → IsContiguous between end ys
    → IsContiguous from end (xs ++ ys)
IsContiguous-append from between end [] ys h later = rw (h) later
IsContiguous-append from between end (x ∷ xs) ys (starts, lasts, h) later =
    (starts, lasts, IsContiguous-append (from + x.dur) between end xs ys h later)

full_sample-dur :
    (a b : ℕ) (bytes : List ℕ)
    → a ≤ b
    → b < a + 4294967296
    → (full_sample (pos a) (pos b) bytes).dur ≡ b - a
unfolding ◌-ℤ◌
full_sample-dur a b bytes ordered short = ground arith

second-IsContiguous :
    (payload : ℕ → ℕ → List ℕ) (nr cue_dur s : ℕ)
    → 0 < cue_dur
    → cue_dur ≤ 1000
    → suc s * 1000 < 9223372036854775808
    → IsContiguous (s * 1000) (suc s * 1000) (second_samples payload nr cue_dur s)
second-IsContiguous payload nr cue_dur s some_dur short early =
    let cue =
      full_sample-dur (s * 1000) (s * 1000 + cue_dur) (payload (s * 1000) nr) (omega arith)
        (omega arith) in
    elim (Bool-cases (ltb cue_dur 1000)) [
      | inl gap ↦
          let left =
            full_sample-dur (s * 1000 + cue_dur) (s * 1000 + 1000) vtte (ground arith)
              (omega arith) in
          let less : cue_dur < 1000 = ground arith in
          rw (gap) (
            omega arith,
            omega (arith, cue),
            (omega (arith, cue), omega (arith, left, less), omega (arith, cue, left, less)),
          )
      | inr whole ↦
          let exact : cue_dur ≡ 1000 = ground arith in
          rw (whole) (omega arith, omega (arith, cue), omega (arith, cue, exact))
    ]

seconds-IsContiguous :
    (payload : ℕ → ℕ → List ℕ) (nr cue_dur s count : ℕ)
    → 0 < cue_dur
    → cue_dur ≤ 1000
    → (s + count) * 1000 < 9223372036854775808
    → IsContiguous (s * 1000) ((s + count) * 1000) (seconds payload nr cue_dur s count)
unfolding seconds
seconds-IsContiguous payload nr cue_dur s zero some_dur short early = omega arith
seconds-IsContiguous payload nr cue_dur s (suc count) some_dur short early =
    let rest =
      seconds-IsContiguous payload nr cue_dur (suc s) count some_dur short (omega (arith, early)) in
    let same : (suc s + count) * 1000 ≡ (s + suc count) * 1000 = omega arith in
    IsContiguous-append (s * 1000) (suc s * 1000) ((s + suc count) * 1000)
      (second_samples payload nr cue_dur s) _
      (second-IsContiguous payload nr cue_dur s some_dur short (omega (arith, early)))
      (rw (same) at rest)

module _ (payload : SubtitleTrack → ℕ → ℕ → List ℕ)
    (execute : SubtitleTrack → ℕ → List StppTimeCue → Option (List ℕ))
    (encode : ℕ → List FullSample → Option (List ℕ)) where
  -- The group of a WVTT track whose cue lasts at least 1 ms and at most 1 s, for a group's duration of
  -- whole seconds, one at least, and an end below 2 ^ 63 ms: it is generated exactly when mp4ff
  -- encodes the segment; it starts at its number times its duration and ends that duration later;
  -- its one object is the segment of samples that lie end to end from the group's start to its end,
  -- each with a duration above 0.
  pub gen_subtitle_group-IsContiguous :
      (st : SubtitleTrack) (group_nr count : ℕ)
      → st.format ≡ wvtt
      → 0 < st.cue_dur_ms
      → st.cue_dur_ms ≤ 1000
      → (group_nr * suc count + suc count) * 1000 < 9223372036854775808
      → (samples : List FullSample) × (IsContiguous
          (group_nr * (suc count * 1000))
          (group_nr * (suc count * 1000) + suc count * 1000)
          samples)
        × (gen_subtitle_group payload execute encode st group_nr (suc count * 1000)
            ≡ elim (encode (u32 group_nr) samples) [
              | none ↦ none
              | some object ↦ some (record {
                id = u32 group_nr;
                start_time = group_nr * (suc count * 1000);
                end_time = group_nr * (suc count * 1000) + suc count * 1000;
                start_nr = group_nr;
                end_nr = group_nr + 1;
                objects = object ∷ [];
              })
            ])
  unfolding gen_subtitle_group subtitle_samples
  gen_subtitle_group-IsContiguous st group_nr count is_wvtt some_dur short early =
      let first = group_nr * suc count in
      let base : group_nr * (suc count * 1000) ≡ first * 1000 = grind arith in
      let at : u64 (first * 1000) ≡ first * 1000 = omega (arith, early) in
      let ends : u64 (first * 1000 + suc count * 1000) ≡ first * 1000 + suc count * 1000 =
        omega (arith, early) in
      let below : group_nr ≤ first = grind arith in
      let next : u64 (group_nr + 1) ≡ group_nr + 1 = omega (arith, early, below) in
      let all : (first + suc count) * 1000 ≡ first * 1000 + suc count * 1000 = omega arith in
      let lie =
        seconds-IsContiguous (payload st) (u32 group_nr) st.cue_dur_ms first (suc count) some_dur
          short early in
      let made =
        wvtt_samples-seconds (payload st) (u32 group_nr) first count st.cue_dur_ms some_dur short in
      let at' : u64 (group_nr * (suc count * 1000)) ≡ group_nr * (suc count * 1000) =
        rw (base) at in
      let ends' : u64 (group_nr * (suc count * 1000) + suc count * 1000)
          ≡ group_nr * (suc count * 1000) + suc count * 1000 =
        rw (base) ends in
      let there : subtitle_samples payload execute encode st (u32 group_nr) (first * 1000)
            (suc count * 1000)
          ≡ some (seconds (payload st) (u32 group_nr) st.cue_dur_ms first (suc count)) =
        simp (subtitle_samples, is_wvtt, made) in
      let samples : subtitle_samples payload execute encode st (u32 group_nr)
            (u64 (group_nr * (suc count * 1000))) (suc count * 1000)
          ≡ some (seconds (payload st) (u32 group_nr) st.cue_dur_ms first (suc count)) =
        rw (at', base) there in
      (
        seconds (payload st) (u32 group_nr) st.cue_dur_ms first (suc count),
        rw (base) (rw (all) at lie),
        elim (Option-cases (
            encode (u32 group_nr)
              (seconds (payload st) (u32 group_nr) st.cue_dur_ms first (suc count)))) [
                | inl e ↦ rw (gen_subtitle_group, samples, e) refl
                | inr (object, e) ↦ rw (gen_subtitle_group, samples, e, at', ends', next) refl
              ],
      )
