-- ===== src/Timing/Cover.antt =====
-- Each sample lies in exactly one group.
use moqlivemock_svc.Base.{
  ℕ, ◌+◌, ◌-◌, ◌*◌, ◌/◌, ◌%◌, ◌≤◌, ◌<◌, ◌≡◌, ◌↔◌, arith, ◌==◌, Bool-cases, inl, inr,
}
use moqlivemock_svc.Base.Words.{u64}
use moqlivemock_svc.Asset.Types.{ContentTrack}
use moqlivemock_svc.Timing.Round.{mul_mono, le_cases, quotient_iff, ceil_div, ceil_div-le, div-le}
use moqlivemock_svc.Timing.Group.{group_time, samples_before, calc_moq_group}

-- The rounding up does not wrap.
samples_before-ceil :
    (track : ContentTrack) (time : ℕ)
    → 0 < track.sample_dur
    → time < 18446744073709551615
    → samples_before track time ≡ ceil_div time track.sample_dur
samples_before-ceil track time h small =
    let quotient = div-le time track.sample_dur h in
    elim (Bool-cases (time % track.sample_dur == 0)) [
      | inl exact ↦ rw exact
      | inr over ↦ rw over (omega arith)
    ]

-- Nothing wraps in the group's times.
group_time-exact :
    (track : ContentTrack) (nr dur_ms : ℕ)
    → nr * (dur_ms * track.time_scale) < 18446744073709551616
    → 0 < track.time_scale
    → group_time track nr dur_ms ≡ nr * (dur_ms * track.time_scale) / 1000
group_time-exact track nr dur_ms h pos =
    let bound : nr * dur_ms ≤ nr * (dur_ms * track.time_scale) =
      omega (arith, mul_mono 1 track.time_scale (nr * dur_ms) pos) in
    let inner : u64 (nr * dur_ms) ≡ nr * dur_ms = omega arith in rw inner (omega arith)

-- One bound of a group, in terms of the sample's start time and the group's.
samples_before-group_time :
    (track : ContentTrack) (nr dur_ms i : ℕ)
    → 0 < track.sample_dur
    → 0 < track.time_scale
    → nr * (dur_ms * track.time_scale) < 18446744073709551616
    → (samples_before track (group_time track nr dur_ms) ≤ i)
      ↔ (nr * (dur_ms * track.time_scale) ≤ (i * track.sample_dur + 1) * 1000 - 1)
samples_before-group_time track nr dur_ms i h pos fits =
    let exact = group_time-exact track nr dur_ms fits pos in
    let ceil = samples_before-ceil track (group_time track nr dur_ms) h (rw exact (omega arith)) in
    let bound = ceil_div-le (group_time track nr dur_ms) track.sample_dur i h in
    rw ceil (λ le. omega (arith, bound.0 le, exact), λ le. bound.1 (rw exact (omega arith)))

between_iff :
    (a b i x y m : ℕ)
    → (a ≤ i) ↔ (x ≤ m)
    → (b ≤ i) ↔ (y ≤ m)
    → ((a ≤ i) × (i < b)) ↔ ((x ≤ m) × (m < y))
between_iff a b i x y m lo hi = (
  λ (from, to). (
    lo.0 from,
    elim (le_cases y m) [ inl le ↦ absurd (omega (arith, hi.1 le)) | inr less ↦ less ],
  ),
  λ (from, to). (
    lo.1 from,
    elim (le_cases b i) [ inl le ↦ absurd (omega (arith, hi.0 le)) | inr less ↦ less ],
  ),
)

-- With nothing wrapping, sample `i` lies in the range of group `nr` just if `nr` is the number that
-- its start time gives: so each sample lies in exactly one group.
pub calc_moq_group-covers :
    (track : ContentTrack) (nr dur_ms i : ℕ)
    → 0 < track.sample_dur
    → 0 < track.time_scale
    → 0 < dur_ms
    → (nr + 1) * (dur_ms * track.time_scale) < 18446744073709551616
    → (((calc_moq_group track nr dur_ms).0 ≤ i) × (i < (calc_moq_group track nr dur_ms).1))
      ↔ (nr ≡ ((i * track.sample_dur + 1) * 1000 - 1) / (dur_ms * track.time_scale))
unfolding calc_moq_group
calc_moq_group-covers track nr dur_ms i h pos pos' fits =
    let k = dur_ms * track.time_scale in
    let some_time : 0 < k = omega (arith, mul_mono 1 dur_ms track.time_scale pos') in
    let here : nr * k ≤ (nr + 1) * k = omega arith in
    let wrap : u64 (nr + 1) ≡ nr + 1 = omega (arith, mul_mono 1 k (nr + 1) some_time) in
    let lo = samples_before-group_time track nr dur_ms i h pos (omega arith) in
    let hi = samples_before-group_time track (nr + 1) dur_ms i h pos fits in
    let quotient = quotient_iff nr ((i * track.sample_dur + 1) * 1000 - 1) k some_time in
    let bounds = between_iff _ _ i _ _ _ lo hi in
    rw wrap (λ inside. quotient.0 (bounds.0 inside), λ e. bounds.1 (quotient.1 e))
