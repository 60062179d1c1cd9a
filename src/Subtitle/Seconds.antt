-- ===== src/Subtitle/Seconds.antt =====
-- The cues and samples of internal/subtitle.go for segments of whole seconds.
use moqlivemock_svc.Base.{
  ℕ, zero, suc, ◌+◌, ◌-◌, ◌*◌, ◌/◌, ◌≡◌, ◌≢◌, ◌≤◌, ◌<◌, refl, true, false, Bool-cases, some, inl,
  inr, List, [], ◌∷◌, ◌++◌, ltb, leb, ◌==◌, if◌then◌else◌, arith, tests,
}
use moqlivemock_svc.Base.Int.{pos, ◌+ℤ◌, ◌-ℤ◌, ltb_ℤ}
use moqlivemock_svc.Asset.Types.{FullSample}
use moqlivemock_svc.Subtitle.Cues.{
  CueItvl, Cues, cue_itvls, division_by_zero, cues_out_of_fuel, cue_full_s, cue_at, cons_cue,
  cue_loop, calc_cue_itvls, full_sample, vtte, wvtt_loop, wvtt_samples,
}

cons_cue-ends :
    (ci : CueItvl) (cues : Cues)
    → ¬ (cues ≡ cues_out_of_fuel)
    → ¬ (cons_cue ci cues ≡ cues_out_of_fuel)
cons_cue-ends ci (cue_itvls itvls) h e = absurd (cc)
cons_cue-ends ci division_by_zero h e = absurd (cc)
cons_cue-ends ci cues_out_of_fuel h e = h refl

cue_loop-ends :
    (fuel seg_start seg_dur utc_start cue_dur s : ℕ)
    → 0 < cue_full_s cue_dur
    → 0 < fuel
    → suc ((utc_start + seg_dur) / (cue_full_s cue_dur * 1000)) < s + fuel
    → ¬ (cue_loop fuel seg_start seg_dur utc_start cue_dur s ≡ cues_out_of_fuel)
unfolding cue_loop
cue_loop-ends zero seg_start seg_dur utc_start cue_dur s step some_fuel h = absurd (omega arith)
cue_loop-ends (suc fuel) seg_start seg_dur utc_start cue_dur s step some_fuel h =
    elim (Bool-cases (leb s ((utc_start + seg_dur) / (cue_full_s cue_dur * 1000)))) [
      | inr past ↦ rw (cue_loop, past) (λ e. absurd (cc))
      | inl before ↦ elim (Bool-cases (s * 1000 == utc_start + seg_dur)) [
        | inl at_end ↦ rw (cue_loop, before, at_end) (λ e. absurd (cc))
        | inr inside ↦
            rw (cue_loop, before, inside)
              (cons_cue-ends _ _ (
                cue_loop-ends fuel seg_start seg_dur utc_start cue_dur (s + cue_full_s cue_dur) step
                  (omega (tests, before, h)) (omega (arith, step, h))))
      ]
    ]

-- Whatever the segment and the cue's duration, the loop over the cues ends, and a duration of 0
-- divides by zero.
pub calc_cue_itvls-ends :
    (seg_start seg_dur utc_start cue_dur : ℕ)
    → (calc_cue_itvls seg_start seg_dur utc_start cue_dur ≢ cues_out_of_fuel)
      × ((cue_dur ≡ 0) → calc_cue_itvls seg_start seg_dur utc_start cue_dur ≡ division_by_zero)
unfolding calc_cue_itvls
calc_cue_itvls-ends seg_start seg_dur utc_start cue_dur =
    elim (Bool-cases (cue_full_s cue_dur * 1000 == 0)) [
      | inl none_full ↦ (
        rw (calc_cue_itvls, none_full) (λ e. absurd (cc)),
        λ e. rw (calc_cue_itvls, none_full) refl,
      )
      | inr full ↦
          let limit = (utc_start + seg_dur) / (cue_full_s cue_dur * 1000) in
          let first = utc_start / (cue_full_s cue_dur * 1000) in
          let some_full : 0 < cue_full_s cue_dur = ground arith in
          (
            rw (calc_cue_itvls, full)
                (cue_loop-ends (suc (suc (limit - first))) seg_start seg_dur utc_start cue_dur first
                  some_full (omega arith) (omega arith)),
            λ e. absurd (omega (arith, e, some_full)),
          )
    ]

-- A second of a segment: its cue, and the gap that is left of it.
abbrev pub gap_samples : ℕ → ℕ → List FullSample
gap_samples cue_dur s =
    if ltb cue_dur 1000
    then full_sample (pos (s * 1000 + cue_dur)) (pos (s * 1000 + 1000)) vtte ∷ []
    else []

abbrev pub second_samples : (ℕ → ℕ → List ℕ) → ℕ → ℕ → ℕ → List FullSample
second_samples payload nr cue_dur s =
    full_sample (pos (s * 1000)) (pos (s * 1000 + cue_dur)) (payload (s * 1000) nr)
    ∷ gap_samples cue_dur s

-- So many seconds from a second on.
unfoldable pub seconds : (ℕ → ℕ → List ℕ) → ℕ → ℕ → ℕ → ℕ → List FullSample
seconds payload nr cue_dur s zero = []
seconds payload nr cue_dur s (suc count) =
    second_samples payload nr cue_dur s ++ seconds payload nr cue_dur (suc s) count

cue_of : ℕ → ℕ → CueItvl
cue_of cue_dur s = record {
  start_ms = pos (s * 1000);
  end_ms = pos (s * 1000 + cue_dur);
  utc_s = s;
}

cues_of : ℕ → ℕ → ℕ → List CueItvl
cues_of cue_dur s zero = []
cues_of cue_dur s (suc count) = cue_of cue_dur s ∷ cues_of cue_dur (suc s) count

unshifted : (x b : ℕ) → pos x +ℤ (pos b -ℤ pos b) ≡ pos x
unfolding ◌+ℤ◌ ◌-ℤ◌
unshifted x b = ground arith

-- A cue that lies in the segment keeps its ends.
cue_at-inside :
    (first count cue_dur s : ℕ)
    → first ≤ s
    → s * 1000 + cue_dur ≤ first * 1000 + count * 1000
    → cue_at (first * 1000) (count * 1000) (first * 1000) cue_dur s ≡ cue_of cue_dur s
unfolding cue_of
cue_at-inside first count cue_dur s after ends =
    let starts : ltb (s * 1000) (first * 1000) ≡ false = ground arith in
    let within : ltb (first * 1000 + count * 1000) (s * 1000 + cue_dur) ≡ false = ground arith in
    rw
      (
        cue_at,
        starts,
        within,
        unshifted (s * 1000) (first * 1000),
        unshifted (s * 1000 + cue_dur) (first * 1000),
      )
      refl

-- The loop of a segment of `count` seconds from `first`, at its second `done`.
cue_loop-seconds :
    (fuel first count left cue_dur s : ℕ)
    → 0 < cue_dur
    → cue_dur ≤ 1000
    → s + left ≡ first + count
    → first ≤ s
    → left < fuel
    → cue_loop fuel (first * 1000) (count * 1000) (first * 1000) cue_dur s
      ≡ cue_itvls (cues_of cue_dur s left)
unfolding cue_loop cues_of cue_of ◌+ℤ◌ ◌-ℤ◌
cue_loop-seconds zero first count left cue_dur s some_dur short here after h = absurd (omega arith)
cue_loop-seconds (suc fuel) first count zero cue_dur s some_dur short here after h =
    let full : cue_full_s cue_dur ≡ 1 = omega arith in
    let inside : leb s ((first * 1000 + count * 1000) / (1 * 1000)) ≡ true = ground arith in
    let at_end : (s * 1000 == first * 1000 + count * 1000) ≡ true = ground arith in
    rw (cue_loop, full, inside, at_end) refl
cue_loop-seconds (suc fuel) first count (suc left) cue_dur s some_dur short here after h =
    let full : cue_full_s cue_dur ≡ 1 = omega arith in
    let inside : leb s ((first * 1000 + count * 1000) / (1 * 1000)) ≡ true = ground arith in
    let before_end : (s * 1000 == first * 1000 + count * 1000) ≡ false = ground arith in
    let rest =
      cue_loop-seconds fuel first count left cue_dur (suc s) some_dur short (omega arith)
        (omega arith) (omega arith) in
    let same = cue_at-inside first count cue_dur s after (omega (arith, here, short)) in
    let next : s + cue_full_s cue_dur ≡ suc s = omega (arith, full) in
    rw (cue_loop, full, inside, before_end, next, same, rest) refl

-- A segment of whole seconds has one cue in each.
calc_cue_itvls-seconds :
    (first count cue_dur : ℕ)
    → 0 < cue_dur
    → cue_dur ≤ 1000
    → calc_cue_itvls (first * 1000) (count * 1000) (first * 1000) cue_dur
      ≡ cue_itvls (cues_of cue_dur first count)
unfolding calc_cue_itvls
calc_cue_itvls-seconds first count cue_dur some_dur short =
    let full : cue_full_s cue_dur ≡ 1 = omega arith in
    let fuel = suc (suc ((first * 1000 + count * 1000) / (1 * 1000) - first * 1000 / (1 * 1000))) in
    let start : first * 1000 / (1 * 1000) ≡ first = omega arith in
    let enough : count < fuel = omega arith in
    let loop =
      cue_loop-seconds fuel first count count cue_dur first some_dur short refl (omega arith)
        enough in
    rw (calc_cue_itvls, full, start) (rw (start) at loop)

-- From the end of a second's cue on.
wvtt_loop-gap :
    (payload : ℕ → ℕ → List ℕ) (nr cue_dur s count seg_end : ℕ)
    → 0 < cue_dur
    → cue_dur ≤ 1000
    → seg_end ≡ (suc s + count) * 1000
    → wvtt_loop payload nr (pos seg_end) (pos (s * 1000 + cue_dur)) (cues_of cue_dur (suc s) count)
      ≡ gap_samples cue_dur s ++ seconds payload nr cue_dur (suc s) count
unfolding wvtt_loop seconds cues_of cue_of
wvtt_loop-gap payload nr cue_dur s zero seg_end some_dur short ends =
    let filled : seg_end ≡ s * 1000 + 1000 = omega (arith, ends) in
    elim (Bool-cases (ltb cue_dur 1000)) [
      | inl gap ↦
          let left : ltb_ℤ (pos (s * 1000 + cue_dur)) (pos seg_end) ≡ true =
            ground (arith, filled) in
          rw (wvtt_loop, left, gap, filled) refl
      | inr whole ↦
          let left : ltb_ℤ (pos (s * 1000 + cue_dur)) (pos seg_end) ≡ false =
            ground (arith, filled) in
          rw (wvtt_loop, left, whole) refl
    ]
wvtt_loop-gap payload nr cue_dur s (suc count) seg_end some_dur short ends =
    let rest =
      wvtt_loop-gap payload nr cue_dur (suc s) count seg_end some_dur short (omega (arith, ends)) in
    let next : suc s * 1000 ≡ s * 1000 + 1000 = omega arith in
    elim (Bool-cases (ltb cue_dur 1000)) [
      | inl gap ↦
          let left : ltb_ℤ (pos (s * 1000 + cue_dur)) (pos (suc s * 1000)) ≡ true = ground arith in
          rw (wvtt_loop, left, gap, rest, gap, ← next) refl
      | inr whole ↦
          let left : ltb_ℤ (pos (s * 1000 + cue_dur)) (pos (suc s * 1000)) ≡ false = ground arith in
          rw (wvtt_loop, left, whole, rest, whole) refl
    ]

-- In a segment of at least one second, with whole seconds, the WVTT samples are, for each second, its
-- cue of the cue's duration and then, when the cue is shorter than a second, the empty cue up to the
-- next second. The cue's duration is at least 1 ms and at most 1 s.
pub wvtt_samples-seconds :
    (payload : ℕ → ℕ → List ℕ) (nr first count cue_dur : ℕ)
    → 0 < cue_dur
    → cue_dur ≤ 1000
    → wvtt_samples payload nr (first * 1000) (suc count * 1000) (first * 1000) cue_dur
      ≡ some (seconds payload nr cue_dur first (suc count))
unfolding wvtt_samples wvtt_loop seconds cues_of cue_of
wvtt_samples-seconds payload nr first count cue_dur some_dur short =
    let cues = calc_cue_itvls-seconds first (suc count) cue_dur some_dur short in
    let start : ltb_ℤ (pos (first * 1000)) (pos (first * 1000)) ≡ false = ground arith in
    let rest =
      wvtt_loop-gap payload nr cue_dur first count (first * 1000 + suc count * 1000) some_dur short
        (omega arith) in
    rw (wvtt_samples, cues, wvtt_loop, start, rest) refl
