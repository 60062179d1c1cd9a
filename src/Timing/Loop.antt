-- ===== src/Timing/Loop.antt =====
-- `calc_sample` walks through the source clip and starts again at its first sample.
use mathlib.Core.Path.{subst}
use native.Mathlib.Nat.{div-add-mod, mod-lt}
use moqlivemock_svc.Base.{
  ℕ, ◌+◌, ◌-◌, ◌*◌, ◌/◌, ◌%◌, ◌≤◌, ◌<◌, ◌≡◌, sym, ap, arith, ◌==◌, if◌then◌else◌, Bool-cases,
  lt→ltb, ==_iff, inl, inr,
}
use moqlivemock_svc.Base.Words.{u64}
use moqlivemock_svc.Asset.Types.{ContentTrack}
use moqlivemock_svc.Timing.Round.{mul_mono, le_cases, quotient_iff, ceil_div, ceil_div-le}
use moqlivemock_svc.Timing.Sample.{aligned_wrap, calc_sample}

-- The time of the last wrap at or before sample `nr`.
abbrev wrap_time : ContentTrack → ℕ → ℕ
wrap_time t nr = nr * t.sample_dur / t.loop_dur * t.loop_dur

wrap_time-le : (t : ContentTrack) (nr : ℕ) → wrap_time t nr ≤ nr * t.sample_dur
wrap_time-le t nr = omega (arith, div-add-mod (nr * t.sample_dur) t.loop_dur)

wrap_time-near :
    (t : ContentTrack) (nr : ℕ) → 0 < t.loop_dur → nr * t.sample_dur < wrap_time t nr + t.loop_dur
wrap_time-near t nr h =
    omega (arith, div-add-mod (nr * t.sample_dur) t.loop_dur, mod-lt (nr * t.sample_dur) h)

-- The wrap time raised to a multiple of the sample duration is the rounded-up number of samples.
aligned_wrap-ceil :
    (t : ContentTrack) (time : ℕ)
    → 0 < t.sample_dur
    → time + t.sample_dur < 18446744073709551616
    → aligned_wrap t time ≡ ceil_div time t.sample_dur * t.sample_dur
aligned_wrap-ceil t time h fits =
    let split = div-add-mod time t.sample_dur in
    let small = mod-lt time h in
    elim (Bool-cases (time % t.sample_dur == 0)) [
      | inl exact ↦
          let none_left : time % t.sample_dur ≡ 0 = (==_iff (time % t.sample_dur) 0).0 exact in
          rw exact (rw none_left (omega (arith, split, none_left)))
      | inr over ↦
          let some_left : 0 < time % t.sample_dur = ground (arith, over) in
          rw over
            (rw (lt→ltb 0 (time % t.sample_dur) some_left) (omega (arith, split, small, fits)))
    ]

abbrev wrapped : ContentTrack → ℕ → ℕ
wrapped t nr = ceil_div (wrap_time t nr) t.sample_dur

wrapped-le : (t : ContentTrack) (nr : ℕ) → 0 < t.sample_dur → wrapped t nr ≤ nr
wrapped-le t nr h = (ceil_div-le (wrap_time t nr) t.sample_dur nr h).1 (wrap_time-le t nr)

sub_multiples_add :
    (c k d : ℕ)
    → 0 < d
    → (c + k) * d < 18446744073709551616
    → ((c + k) * d + 18446744073709551616 - c * d) % 18446744073709551616 / d ≡ k
sub_multiples_add c k d h fits =
    let rest : ((c + k) * d + 18446744073709551616 - c * d) % 18446744073709551616 ≡ k * d =
      omega arith in
    rw rest (sym ((quotient_iff k (k * d) d h).0 (omega arith, omega arith)))

sub_multiples :
    (n c d : ℕ)
    → 0 < d
    → c ≤ n
    → n * d < 18446744073709551616
    → (n * d + 18446744073709551616 - c * d) % 18446744073709551616 / d ≡ n - c
sub_multiples n c d h le fits =
    let whole : n ≡ c + (n - c) = omega arith in
    subst (λ m. (m * d + 18446744073709551616 - c * d) % 18446744073709551616 / d ≡ n - c)
      (sym whole) (sub_multiples_add c (n - c) d h (rw (← whole) fits))

-- The sample of the clip for an output sample: the number of samples before it that start at or after
-- the last wrap.
abbrev pub source_nr : ContentTrack → ℕ → ℕ
source_nr t nr = nr - wrapped t nr

-- Nothing wraps in `calc_sample`: it counts the samples since the last wrap.
pub calc_sample-source_nr :
    (t : ContentTrack) (nr : ℕ)
    → 0 < t.sample_dur
    → (nr + 1) * t.sample_dur < 18446744073709551616
    → (calc_sample t nr).1 ≡ source_nr t nr
unfolding calc_sample
calc_sample-source_nr t nr h fits =
    let below = wrap_time-le t nr in
    let count = wrapped-le t nr h in
    let start : u64 (nr * t.sample_dur) ≡ nr * t.sample_dur = omega arith in
    let wraps : u64 (wrap_time t nr) ≡ wrap_time t nr = omega (arith, below) in
    let aligned = aligned_wrap-ceil t (wrap_time t nr) h (omega (arith, below)) in
    let product : wrapped t nr * t.sample_dur ≤ nr * t.sample_dur =
      mul_mono (wrapped t nr) nr t.sample_dur count in
    rw (start, wraps, aligned) (sub_multiples nr (wrapped t nr) t.sample_dur h count (omega arith))

-- The sample exists: where the time fits a uint64 and the loop is no longer than `n` samples, the number found is below `n`.
pub calc_sample-lt :
    (t : ContentTrack) (nr n : ℕ)
    → 0 < t.sample_dur
    → 0 < t.loop_dur
    → t.loop_dur ≤ n * t.sample_dur
    → (nr + 1) * t.sample_dur < 18446744073709551616
    → (calc_sample t nr).1 < n
calc_sample-lt t nr n h loops covers fits =
    rw (calc_sample-source_nr t nr h fits) (elim (le_cases n nr) [
      | inr few ↦ omega (arith, few, wrapped-le t nr h, covers)
      | inl many ↦ elim (le_cases (n + wrapped t nr) nr) [
        | inr done ↦ omega (arith, done, wrapped-le t nr h)
        | inl far ↦
            let gap =
              (ceil_div-le (wrap_time t nr) t.sample_dur (nr - n) h).0 (omega (arith, far)) in
            let whole : nr * t.sample_dur ≡ (n + (nr - n)) * t.sample_dur =
              ap (λ m. m * t.sample_dur) (omega arith) in
            absurd (omega (arith, gap, whole, wrap_time-near t nr loops, covers))
      ]
    ])

-- Where the number of loops changes, sample `nr + 1` is the first after the wrap.
fresh_wrap :
    (t : ContentTrack) (nr : ℕ)
    → 0 < t.sample_dur
    → 0 < t.loop_dur
    → ¬ ((nr + 1) * t.sample_dur / t.loop_dur ≡ nr * t.sample_dur / t.loop_dur)
    → wrapped t (nr + 1) ≡ nr + 1
fresh_wrap t nr h loops other = elim (le_cases (wrapped t (nr + 1)) nr) [
  | inr late ↦ omega (arith, late, wrapped-le t (nr + 1) h)
  | inl early ↦
      let before = (ceil_div-le (wrap_time t (nr + 1)) t.sample_dur nr h).0 early in
      absurd
        (elim (le_cases (nr * t.sample_dur / t.loop_dur + 1)
          ((nr + 1) * t.sample_dur / t.loop_dur)) [
            | inl more ↦ omega (
              arith,
              before,
              wrap_time-near t nr loops,
              mul_mono (nr * t.sample_dur / t.loop_dur + 1) ((nr + 1) * t.sample_dur / t.loop_dur)
                  t.loop_dur more,
            )
            | inr fewer ↦
                elim (le_cases (nr * t.sample_dur / t.loop_dur)
                  ((nr + 1) * t.sample_dur / t.loop_dur)) [
                    | inl least ↦ other (omega (arith, fewer, least))
                    | inr less ↦ omega (
                      arith,
                      wrap_time-le t nr,
                      wrap_time-near t (nr + 1) loops,
                      mul_mono ((nr + 1) * t.sample_dur / t.loop_dur + 1)
                          (nr * t.sample_dur / t.loop_dur) t.loop_dur (omega (arith, less)),
                    )
                  ]
          ])
]

-- While the times fit a uint64, a sample of the output is followed by the next one of the clip, or, where a new loop starts, by
-- the clip's first.
pub calc_sample-next :
    (t : ContentTrack) (nr : ℕ)
    → 0 < t.sample_dur
    → 0 < t.loop_dur
    → (nr + 2) * t.sample_dur < 18446744073709551616
    → (calc_sample t (nr + 1)).1 ≡ (
        if (nr + 1) * t.sample_dur / t.loop_dur == nr * t.sample_dur / t.loop_dur
        then (calc_sample t nr).1 + 1
        else 0)
calc_sample-next t nr h loops fits =
    rw
      (calc_sample-source_nr t nr h (omega arith), calc_sample-source_nr t (nr + 1) h (omega arith))
      (elim (Bool-cases ((nr + 1) * t.sample_dur / t.loop_dur == nr * t.sample_dur / t.loop_dur)) [
        | inl same ↦
            let equal = (==_iff _ _).0 same in
            let kept : wrapped t (nr + 1) ≡ wrapped t nr =
              ap (λ q. ceil_div (q * t.loop_dur) t.sample_dur) equal in
            rw (same, kept) (omega (arith, wrapped-le t nr h))
        | inr other ↦
            let fresh : wrapped t (nr + 1) ≡ nr + 1 =
              fresh_wrap t nr h loops (λ e. cc (other, (==_iff _ _).1 e)) in
            rw (other, fresh) (omega arith)
      ])
