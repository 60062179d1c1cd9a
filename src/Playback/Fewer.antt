-- ===== src/Playback/Fewer.antt =====
-- `advance` and `nextAdvanceDeadline` of internal/sub/playback.go add no pending unit.
use moqlivemock_svc.Base.{
  ℕ, zero, suc, ◌≤◌, ◌≡◌, ap, Option, some, List, [], ◌∷◌, length, arith, Bool-cases, Option-cases,
  inl, inr, ◌==◌,
}
use moqlivemock_svc.Base.Int.{ℤ, ltb_ℤ}
use moqlivemock_svc.Playback.State.{
  PlaybackUnit, NativePlayback, enter_stall, leave_stall, presentation_deadline,
}
use moqlivemock_svc.Playback.Units.{
  timestamp, complete_prefix, is_after, next_in, next_unit, delete_unit, sorted_units,
}
use moqlivemock_svc.Playback.Advance.{
  switch_layers, present, show_unit, advance_round, advance_loop, try_start, start_in, start_with,
  set_below, advance, next_advance_deadline,
}
use moqlivemock_svc.Playback.Next.{length-delete_unit-le}
use moqlivemock_svc.Playback.Rounds.{round_state}
use moqlivemock_svc.Playback.Run.{Round-cases, Start-cases}
use moqlivemock_svc.Playback.Shown.{switch_layers-pending}

next_in-pending :
    (last : Option ℕ) (us pending : List PlaybackUnit)
    → length (next_in last us pending).1 ≤ length pending
unfolding next_in
next_in-pending last [] pending = omega arith
next_in-pending last (u ∷ us) pending = elim (Option-cases (timestamp u)) [
  | inl e ↦ rw (next_in, e) (next_in-pending last us pending)
  | inr (t, e) ↦ elim (Bool-cases (is_after last t)) [
    | inl later ↦ rw (next_in, e, later) (omega arith)
    | inr late ↦
        rw (next_in, e, late)
          (omega (
            arith,
            next_in-pending last us (delete_unit u.key pending),
            length-delete_unit-le u.key pending,
          ))
  ]
]

next_unit-pending : (p : NativePlayback) → length (next_unit p).1.pending ≤ length p.pending
unfolding next_unit
next_unit-pending p = next_in-pending p.last_presented (sorted_units p.pending) p.pending

enter_stall-pending : (now : ℤ) (p : NativePlayback) → (enter_stall now p).pending ≡ p.pending
unfolding enter_stall
enter_stall-pending now p = ground arith

leave_stall-pending : (now : ℤ) (p : NativePlayback) → (leave_stall now p).pending ≡ p.pending
unfolding leave_stall
leave_stall-pending now p = ground arith

present-pending :
    (u : PlaybackUnit) (now : ℤ) (p : NativePlayback)
    → length (present u now p).pending ≤ length p.pending
unfolding present
present-pending u now p = length-delete_unit-le u.key p.pending

show_unit-pending :
    (now : ℤ) (u : PlaybackUnit) (p : NativePlayback)
    → length (round_state (show_unit now u p)).pending ≤ length p.pending
unfolding show_unit
show_unit-pending now u p =
    let (prefix, independent) = complete_prefix (length p.tracks) u in
    let q = switch_layers prefix independent p in
    let same = switch_layers-pending prefix independent p in
    elim (Bool-cases (q.active == 0)) [
      | inl none_active ↦
          rw (show_unit, none_active) (rw (enter_stall-pending now q, same) (omega arith))
      | inr some_active ↦
          rw (show_unit, some_active) (omega (arith, present-pending u now q, ap length same))
    ]

advance_round-pending :
    (now : ℤ) (p : NativePlayback)
    → length (round_state (advance_round now p)).pending ≤ length p.pending
unfolding advance_round
advance_round-pending now p =
    let fewer = next_unit-pending p in
    elim (Option-cases (next_unit p).0) [
      | inl nothing ↦ rw (nothing, advance_round, round_state) fewer
      | inr (u, found) ↦ elim (Option-cases (timestamp u)) [
        | inl no_time ↦ rw (found, no_time, advance_round, round_state) fewer
        | inr (t, at) ↦ elim (Bool-cases (ltb_ℤ now (presentation_deadline (next_unit p).1 t))) [
          | inl wait ↦ rw (found, at, wait, advance_round, round_state) fewer
          | inr due ↦
              rw (found, at, due, advance_round)
                (omega (arith, show_unit-pending now u (next_unit p).1, fewer))
        ]
      ]
    ]

advance_loop-pending :
    (fuel : ℕ) (now : ℤ) (p q : NativePlayback)
    → advance_loop fuel now p ≡ some q
    → length q.pending ≤ length p.pending
unfolding advance_loop
advance_loop-pending zero now p q e = absurd (cc)
advance_loop-pending (suc fuel) now p q e =
    let less = advance_round-pending now p in
    elim (Round-cases (advance_round now p)) [
      | inl (r, h) ↦
          let same : r ≡ q = cc (rw (h, advance_loop) at e) in rw (← same) (rw (h) at less)
      | inr (u, r, h) ↦
          omega
            (arith, rw (h) at less, advance_loop-pending fuel now r q (rw (h, advance_loop) at e))
    ]

try_start-pending :
    (now : ℤ) (p : NativePlayback) → length (try_start now p).pending ≤ length p.pending
unfolding try_start start_with
try_start-pending now p = elim (Start-cases (start_in now p (sorted_units p.pending))) [
  | inl none_at ↦ ground (arith, ap length (enter_stall-pending now p))
  | inr (inl wait) ↦ rw (wait, try_start) (omega arith)
  | inr (inr (u, found)) ↦
      let q : NativePlayback = record p {
        valid = set_below (complete_prefix (length p.tracks) u).0 p.valid;
        active = (complete_prefix (length p.tracks) u).0;
      } in
      rw (found, try_start)
        (omega
          (arith, present-pending u now (leave_stall now q), ap length (leave_stall-pending now q)))
]

pub advance-pending :
    (now : ℤ) (p q : NativePlayback) → advance now p ≡ some q → length q.pending ≤ length p.pending
unfolding advance
advance-pending now p q e = elim (Bool-cases p.simulated) [
  | inr off ↦ let same : p ≡ q = ground arith in rw (← same) (omega arith)
  | inl on ↦ elim (Bool-cases (p.active == 0)) [
    | inl none_active ↦
        let same : try_start now p ≡ q = ground arith in rw (← same) (try_start-pending now p)
    | inr active ↦
        let runs : advance_loop (suc (length p.pending)) now p ≡ some q = ground arith in
        advance_loop-pending (suc (length p.pending)) now p q runs
  ]
]

-- Deletions of units that are late.
pub next_advance_deadline-pending :
    (p : NativePlayback) → length (next_advance_deadline p).1.pending ≤ length p.pending
unfolding next_advance_deadline
next_advance_deadline-pending p = ground (arith, next_unit-pending p)
