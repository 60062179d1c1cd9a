-- ===== src/Playback/Run.antt =====
-- `advance` as a whole: it ends, keeps the invariant, and presents units in order of time.
use moqlivemock_svc.Base.{
  ℕ, zero, suc, ◌<◌, ◌≡◌, refl, true, some, arith, ◌==◌, Option-cases, Bool-cases, ◌⊎◌, inl, inr,
  length,
}
use moqlivemock_svc.Base.Int.{ℤ, ltb_ℤ}
use moqlivemock_svc.Playback.State.{
  PlaybackUnit, NativePlayback, leave_stall, presentation_deadline,
}
use moqlivemock_svc.Playback.Units.{timestamp, complete_prefix, next_unit, sorted_units}
use moqlivemock_svc.Playback.Advance.{
  Round, stop, presented, Start, no_candidate, early, start_at, advance_round, advance_loop,
  advance, start_in, try_start, set_below, start_with,
}
use moqlivemock_svc.Playback.Flags.{flags, set_below-flags}
use moqlivemock_svc.Playback.Prefix.{complete_prefix-le}
use moqlivemock_svc.Playback.Levels.{IsLayered, present-IsLayered}
use moqlivemock_svc.Playback.Rounds.{
  Shown, SameLevels, IsLayered-same, enter_stall-same, leave_stall-same, round_state,
  show_unit-IsLayered,
}
use moqlivemock_svc.Playback.Shown.{advance_round-Shown, next_unit-IsLayered}

-- The loop of `advance` as rounds that present a unit, up to a round that returns.
pub data Plays (now : ℤ) : NativePlayback → NativePlayback → Type 0 where
  ends : {p q : NativePlayback} → advance_round now p ≡ stop q → Plays now p q
  shows :
      {p q r : NativePlayback} (u : PlaybackUnit) → Shown now p u q → Plays now q r → Plays now p r

advance_round-IsLayered :
    (now : ℤ) (p : NativePlayback) → IsLayered p → IsLayered (round_state (advance_round now p))
unfolding advance_round
advance_round-IsLayered now p h =
    let h' = next_unit-IsLayered p h in
    elim (Option-cases (next_unit p).0) [
      | inl nothing ↦ rw (nothing, advance_round, round_state) h'
      | inr (u, found) ↦ elim (Option-cases (timestamp u)) [
        | inl no_time ↦ rw (found, no_time, advance_round, round_state) h'
        | inr (t, at) ↦ elim (Bool-cases (ltb_ℤ now (presentation_deadline (next_unit p).1 t))) [
          | inl wait ↦ rw (found, at, wait, advance_round, round_state) h'
          | inr due ↦
              rw (found, at, due, advance_round) (show_unit-IsLayered now u (next_unit p).1 h')
        ]
      ]
    ]

pub Round-cases :
    (r : Round)
    → ((q : NativePlayback) × (r ≡ stop q))
      ⊎ ((u : PlaybackUnit) × (q : NativePlayback) × (r ≡ presented u q))
Round-cases (stop q) = inl (q, refl)
Round-cases (presented u q) = inr (u, q, refl)

advance_loop-Plays :
    (fuel : ℕ) (now : ℤ) (p : NativePlayback)
    → IsLayered p
    → length p.pending < fuel
    → (q : NativePlayback) × (advance_loop fuel now p ≡ some q) × Plays now p q × IsLayered q
unfolding advance_loop
advance_loop-Plays zero now p h enough = absurd (omega arith)
advance_loop-Plays (suc fuel) now p h enough =
    let keep = advance_round-IsLayered now p h in
    elim (Round-cases (advance_round now p)) [
      | inl (q, e) ↦ (q, rw (e, advance_loop), ends e, rw e at keep)
      | inr (u, q, e) ↦
          let shown = advance_round-Shown now p u h q e in
          let fewer : length q.pending < length p.pending = shown.fewer in
          let (r, runs, plays, layered) =
            advance_loop-Plays fuel now q (rw e at keep) (omega arith) in
          (r, rw (e, advance_loop) runs, shows u shown plays, layered)
    ]

start_with-IsLayered :
    (now : ℤ) (u : PlaybackUnit) (p : NativePlayback)
    → IsLayered p
    → p.active ≡ 0
    → IsLayered (start_with now u p)
unfolding start_with
start_with-IsLayered now u p h off =
    let prefix = (complete_prefix (length p.tracks) u).0 in
    let q : NativePlayback = record p { valid = set_below prefix p.valid; active = prefix } in
    let valid : set_below prefix p.valid ≡ flags prefix (length p.tracks) =
      rw (h.valid_below, off)
        (set_below-flags prefix 0 (length p.tracks) (omega arith)
          (complete_prefix-le (length p.tracks) u)) in
    let layered : IsLayered q = record {
      in_range = complete_prefix-le (length p.tracks) u;
      valid_below = valid;
      target_last = h.target_last;
    } in
    present-IsLayered u now (leave_stall now q)
      (IsLayered-same q (leave_stall now q) (leave_stall-same now q) layered)

pub Start-cases :
    (r : Start) → (r ≡ no_candidate) ⊎ ((r ≡ early) ⊎ ((u : PlaybackUnit) × (r ≡ start_at u)))
Start-cases no_candidate = inl refl
Start-cases early = inr (inl refl)
Start-cases (start_at u) = inr (inr (u, refl))

unstarted-same :
    (now : ℤ) (p : NativePlayback)
    → start_in now p (sorted_units p.pending) ≡ no_candidate
    → SameLevels p (try_start now p)
unfolding try_start
unstarted-same now p e = ground (arith, enter_stall-same now p)

pub try_start-IsLayered :
    (now : ℤ) (p : NativePlayback) → IsLayered p → p.active ≡ 0 → IsLayered (try_start now p)
unfolding try_start
try_start-IsLayered now p h off = elim (Start-cases (start_in now p (sorted_units p.pending))) [
  | inl none_at ↦ IsLayered-same p _ (unstarted-same now p none_at) h
  | inr (inl wait) ↦ rw (wait, try_start) (IsLayered-same p _ (refl, refl, refl, refl) h)
  | inr (inr (u, found)) ↦ rw (found, try_start) (start_with-IsLayered now u p h off)
]

-- A simulated player with an active layer: `advance` ends, having presented units one after the
-- other, and the layer invariant holds afterwards.
pub advance-Plays :
    (now : ℤ) (p : NativePlayback)
    → IsLayered p
    → p.simulated ≡ true
    → 0 < p.active
    → (q : NativePlayback) × (advance now p ≡ some q) × Plays now p q × IsLayered q
unfolding advance
advance-Plays now p h sim on =
    let (q, runs, plays, layered) =
      advance_loop-Plays (suc (length p.pending)) now p h (omega arith) in
    (q, ground (arith, runs), plays, layered)

-- On every player `advance` ends with a result, and it keeps the layer invariant.
pub advance-IsLayered :
    (now : ℤ) (p : NativePlayback)
    → IsLayered p
    → (q : NativePlayback) × (advance now p ≡ some q) × IsLayered q
unfolding advance
advance-IsLayered now p h = elim (Bool-cases p.simulated) [
  | inr off ↦ (p, rw off, h)
  | inl sim ↦ elim (Bool-cases (p.active == 0)) [
    | inl none_active ↦ (try_start now p, ground arith, try_start-IsLayered now p h (ground arith))
    | inr active ↦
        let (q, runs, plays, layered) =
          advance_loop-Plays (suc (length p.pending)) now p h (omega arith) in
        (q, ground (arith, runs), layered)
  ]
]
