-- ===== src/Playback/Rounds.antt =====
-- One round of `advance`, its loop, and `try_start`: what is presented, and what is kept.
use mathlib.Core.List.{Memᴰ}
use moqlivemock_svc.Base.{
  ℕ, ◌<◌, ◌≡◌, refl, ◌∙◌, ap, true, false, some, arith, ◌==◌, Option-cases, Bool-cases, inl, inr,
  length,
}
use moqlivemock_svc.Base.Int.{ℤ, ltb_ℤ}
use moqlivemock_svc.Playback.State.{
  PlaybackUnit, NativePlayback, enter_stall, leave_stall, presentation_deadline,
}
use moqlivemock_svc.Playback.Units.{timestamp, complete_prefix, is_after, next_unit}
use moqlivemock_svc.Playback.Advance.{
  Round, stop, presented, switch_layers, present, show_unit, advance_round,
}
use moqlivemock_svc.Playback.Prefix.{HasLayer, complete_prefix-le}
use moqlivemock_svc.Playback.Levels.{IsLayered, switch_layers-IsLayered, present-IsLayered}

-- What it means that a round went from `p` to `q` by presenting `u`.
pub record Shown (now : ℤ) (p : NativePlayback) (u : PlaybackUnit) (q : NativePlayback)
    : Type 0 where
  pub was_pending : Memᴰ u p.pending
  pub stamp : ℕ
  pub stamped : timestamp u ≡ some stamp
  pub later : is_after p.last_presented stamp ≡ true
  pub due : ltb_ℤ now (presentation_deadline p stamp) ≡ false
  pub recorded : q.last_presented ≡ some stamp
  pub some_layer : 0 < q.active
  pub complete : (i : ℕ) → i < q.active → HasLayer u i stamp (complete_prefix (length p.tracks) u).1
  pub raised : p.active < q.active → (complete_prefix (length p.tracks) u).1 ≡ true
  pub fewer : length q.pending < length p.pending

-- The fields that the invariant of the layers reads are the same.
abbrev pub SameLevels : NativePlayback → NativePlayback → Type 0
SameLevels p q =
    (q.active ≡ p.active) × (q.valid ≡ p.valid) × (q.tracks ≡ p.tracks) × (q.target ≡ p.target)

pub IsLayered-same : (p q : NativePlayback) → SameLevels p q → IsLayered p → IsLayered q
IsLayered-same p q (active, valid, tracks, target) h = record {
  in_range = rw (active, tracks) h.in_range;
  valid_below = rw (active, valid, tracks) h.valid_below;
  target_last = rw (tracks, target) h.target_last;
}

pub enter_stall-same : (now : ℤ) (p : NativePlayback) → SameLevels p (enter_stall now p)
unfolding enter_stall
enter_stall-same now p = ground arith

pub leave_stall-same : (now : ℤ) (p : NativePlayback) → SameLevels p (leave_stall now p)
unfolding leave_stall
leave_stall-same now p = ground arith

pub next_unit-same : (p : NativePlayback) → SameLevels p (next_unit p).1
unfolding next_unit
next_unit-same p = (refl, refl, refl, refl)

-- The levels after `show_unit`, presented or stalled.
show_unit-levels :
    (now : ℤ) (u : PlaybackUnit) (p : NativePlayback)
    → IsLayered p
    → IsLayered (
        switch_layers
          (complete_prefix (length p.tracks) u).0
          (complete_prefix (length p.tracks) u).1
          p)
show_unit-levels now u p h =
    switch_layers-IsLayered _ _ p h (complete_prefix-le (length p.tracks) u)

abbrev pub round_state : Round → NativePlayback
round_state (stop q) = q
round_state (presented u q) = q

pub show_unit-IsLayered :
    (now : ℤ) (u : PlaybackUnit) (p : NativePlayback)
    → IsLayered p
    → IsLayered (round_state (show_unit now u p))
unfolding show_unit
show_unit-IsLayered now u p h =
    let q =
      switch_layers (complete_prefix (length p.tracks) u).0 (complete_prefix (length p.tracks) u).1
        p in
    elim (Bool-cases (q.active == 0)) [
      | inl none_left ↦
          rw none_left (IsLayered-same q _ (enter_stall-same now q) (show_unit-levels now u p h))
      | inr some_left ↦ rw some_left (present-IsLayered u now q (show_unit-levels now u p h))
    ]

-- The player after the layers are switched for the unit `u`.
abbrev pub switched : PlaybackUnit → NativePlayback → NativePlayback
switched u p =
    switch_layers (complete_prefix (length p.tracks) u).0 (complete_prefix (length p.tracks) u).1 p

show_unit-presented :
    (now : ℤ) (u v : PlaybackUnit) (p r : NativePlayback)
    → show_unit now v p ≡ presented u r
    → (v ≡ u) × (0 < (switched v p).active) × (present v now (switched v p) ≡ r)
unfolding show_unit
show_unit-presented now u v p r e = elim (Bool-cases ((switched v p).active == 0)) [
  | inl none_left ↦ absurd (cc (rw (none_left, show_unit) at e))
  | inr some_left ↦
      let e' : presented v (present v now (switched v p)) ≡ presented u r = rw some_left at e in
      (cc, ground arith, cc)
]

-- A round that presents `u` found it, saw that it is due, and showed it.
pub advance_round-presented :
    (now : ℤ) (p : NativePlayback) (u : PlaybackUnit) (r : NativePlayback)
    → advance_round now p ≡ presented u r
    → ((next_unit p).0 ≡ some u)
      × ((t : ℕ) × (timestamp u ≡ some t)
          × (ltb_ℤ now (presentation_deadline (next_unit p).1 t) ≡ false))
      × (0 < (switched u (next_unit p).1).active)
      × (present u now (switched u (next_unit p).1) ≡ r)
unfolding advance_round
advance_round-presented now p u r e = elim (Option-cases (next_unit p).0) [
  | inl nothing ↦ absurd (cc (rw (nothing, advance_round) at e))
  | inr (v, found) ↦ elim (Option-cases (timestamp v)) [
    | inl no_time ↦ absurd (cc (rw (found, no_time, advance_round) at e))
    | inr (t, at) ↦ elim (Bool-cases (ltb_ℤ now (presentation_deadline (next_unit p).1 t))) [
      | inl wait ↦ absurd (cc (rw (found, at, wait, advance_round) at e))
      | inr due ↦
          let e' : show_unit now v (next_unit p).1 ≡ presented u r =
            rw (found, at, due, advance_round) at e in
          let (same, some_layer, result) = show_unit-presented now u v (next_unit p).1 r e' in
          (
            found ∙ ap some same,
            (t, rw (← same) at, due),
            rw (← same) some_layer,
            rw (← same) result,
          )
    ]
  ]
]
