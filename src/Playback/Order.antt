-- ===== src/Playback/Order.antt =====
-- `advance` presents units in order of time while a layer is active.
use moqlivemock_svc.Base.{
  ℕ, ◌≤◌, ◌<◌, ◌≡◌, refl, ◌∙◌, Bool, true, Option, none, some, arith, ◌==◌, Option-cases,
  Bool-cases, inl, inr, length,
}
use moqlivemock_svc.Base.Int.{ℤ, ltb_ℤ}
use moqlivemock_svc.Playback.State.{
  PlaybackUnit, NativePlayback, enter_stall, presentation_deadline,
}
use moqlivemock_svc.Playback.Units.{timestamp, complete_prefix, is_after, next_unit}
use moqlivemock_svc.Playback.Advance.{
  Round, stop, presented, switch_layers, show_unit, advance_round, advance,
}
use moqlivemock_svc.Playback.Levels.{IsLayered}
use moqlivemock_svc.Playback.Run.{Plays, ends, shows, advance-Plays}

-- The second is at or after the first; nothing presented is before everything.
abbrev pub NotBefore : Option ℕ → Option ℕ → Type 0
NotBefore none b = Unit {0}
NotBefore (some a) none = ⊥
NotBefore (some a) (some b) = a ≤ b

NotBefore-refl : (a : Option ℕ) → NotBefore a a
NotBefore-refl none = tt
NotBefore-refl (some a) = omega arith

NotBefore-trans : (a b c : Option ℕ) → NotBefore a b → NotBefore b c → NotBefore a c
NotBefore-trans none b c h k = tt
NotBefore-trans (some a) none c h k = absurd h
NotBefore-trans (some a) (some b) none h k = absurd k
NotBefore-trans (some a) (some b) (some c) h k = omega arith

NotBefore-after : (a : Option ℕ) (t : ℕ) → is_after a t ≡ true → NotBefore a (some t)
NotBefore-after none t h = tt
NotBefore-after (some a) t h = ground arith

switch_layers-last :
    (prefix : ℕ) (independent : Bool) (p : NativePlayback)
    → (switch_layers prefix independent p).last_presented ≡ p.last_presented
unfolding switch_layers
switch_layers-last prefix independent p = ground arith

enter_stall-last :
    (now : ℤ) (p : NativePlayback) → (enter_stall now p).last_presented ≡ p.last_presented
unfolding enter_stall
enter_stall-last now p = ground arith

-- The last unit presented, after a round that returns.
abbrev stopped_last : Round → Option ℕ → Option ℕ
stopped_last (stop q) last = q.last_presented
stopped_last (presented u q) last = last

show_unit-last :
    (now : ℤ) (u : PlaybackUnit) (p : NativePlayback)
    → stopped_last (show_unit now u p) p.last_presented ≡ p.last_presented
unfolding show_unit
show_unit-last now u p =
    let (prefix, independent) = complete_prefix (length p.tracks) u in
    let q = switch_layers prefix independent p in
    elim (Bool-cases (q.active == 0)) [
      | inl none_left ↦
          rw (none_left, stopped_last)
            (enter_stall-last now q ∙ switch_layers-last prefix independent p)
      | inr some_left ↦ rw (some_left, stopped_last)
    ]

advance_round-last :
    (now : ℤ) (p : NativePlayback)
    → stopped_last (advance_round now p) p.last_presented ≡ p.last_presented
unfolding advance_round next_unit
advance_round-last now p = elim (Option-cases (next_unit p).0) [
  | inl nothing ↦ rw (nothing, advance_round, stopped_last) refl
  | inr (u, found) ↦ elim (Option-cases (timestamp u)) [
    | inl no_time ↦ rw (found, no_time, advance_round, stopped_last) refl
    | inr (t, at) ↦ elim (Bool-cases (ltb_ℤ now (presentation_deadline (next_unit p).1 t))) [
      | inl wait ↦ rw (found, at, wait, advance_round, stopped_last) refl
      | inr due ↦ rw (found, at, due, advance_round) (show_unit-last now u (next_unit p).1)
    ]
  ]
]

Plays-later :
    (now : ℤ) {p q : NativePlayback} → Plays now p q → NotBefore p.last_presented q.last_presented
Plays-later now {p} {q} (ends e) =
    rw (rw e at (advance_round-last now p)) (NotBefore-refl p.last_presented)
Plays-later now {p} {q} (shows {q = r} u shown more) =
    NotBefore-trans p.last_presented r.last_presented q.last_presented
      (rw shown.recorded (NotBefore-after p.last_presented shown.stamp shown.later))
      (Plays-later now more)

-- With a layer active, the last timestamp presented never goes back.
pub advance-later :
    (now : ℤ) (p : NativePlayback)
    → IsLayered p
    → p.simulated ≡ true
    → 0 < p.active
    → (q : NativePlayback) × (advance now p ≡ some q) × NotBefore p.last_presented q.last_presented
advance-later now p h sim on =
    let (q, runs, plays, layered) = advance-Plays now p h sim on in (q, runs, Plays-later now plays)
