-- ===== src/Playback/Shown.antt =====
-- What a round of `advance` that presents a unit has done, and that `advance` ends.
use moqlivemock_svc.Base.{ℕ, ◌≤◌, ◌<◌, ◌≡◌, refl, sym, ◌∙◌, ap, Bool, some, arith, length}
use moqlivemock_svc.Base.Int.{ℤ}
use moqlivemock_svc.Playback.State.{PlaybackUnit, NativePlayback, presentation_deadline}
use moqlivemock_svc.Playback.Units.{timestamp, complete_prefix, delete_unit, next_unit}
use moqlivemock_svc.Playback.Advance.{presented, switch_layers, present, advance_round}
use moqlivemock_svc.Playback.Prefix.{
  complete_prefix-le, complete_prefix-layers, complete_prefix-base, timestamp-base,
}
use moqlivemock_svc.Playback.Levels.{IsLayered, switched_active, switch_layers-active}
use moqlivemock_svc.Playback.Next.{next_unit-found}
use moqlivemock_svc.Playback.Rounds.{
  Shown, IsLayered-same, next_unit-same, switched, advance_round-presented,
}

next_unit-deadline :
    (p : NativePlayback) (t : ℕ)
    → presentation_deadline (next_unit p).1 t ≡ presentation_deadline p t
unfolding next_unit presentation_deadline
next_unit-deadline p t = refl

next_unit-fields :
    (p : NativePlayback) → ((next_unit p).1.active ≡ p.active) × ((next_unit p).1.tracks ≡ p.tracks)
unfolding next_unit
next_unit-fields p = (refl, refl)

pub next_unit-IsLayered : (p : NativePlayback) → IsLayered p → IsLayered (next_unit p).1
next_unit-IsLayered p h = IsLayered-same p _ (next_unit-same p) h

present-last :
    (u : PlaybackUnit) (now : ℤ) (q : NativePlayback) (n t : ℕ)
    → 0 < (complete_prefix n u).0
    → timestamp u ≡ some t
    → (present u now q).last_presented ≡ some t
unfolding present
present-last u now q n t h e =
    let (base, at, flag) = complete_prefix-base n u h in rw at (sym (timestamp-base u base at) ∙ e)

present-fields :
    (u : PlaybackUnit) (now : ℤ) (q : NativePlayback)
    → ((present u now q).active ≡ q.active)
      × ((present u now q).pending ≡ delete_unit u.key q.pending)
unfolding present
present-fields u now q = (refl, refl)

pub switch_layers-pending :
    (prefix : ℕ) (independent : Bool) (p : NativePlayback)
    → (switch_layers prefix independent p).pending ≡ p.pending
unfolding switch_layers
switch_layers-pending prefix independent p = ground arith

module _ (now : ℤ) (p : NativePlayback) (u : PlaybackUnit) (layered : IsLayered p) where
  active-switched :
      (switched u (next_unit p).1).active
      ≡ switched_active
          (complete_prefix (length p.tracks) u).0
          (complete_prefix (length p.tracks) u).1
          p.active
  active-switched =
      switch_layers-active _ _ (next_unit p).1 (next_unit-IsLayered p layered)
        (complete_prefix-le _ u)
      ∙ rw ((next_unit-fields p).0, (next_unit-fields p).1)

  prefix_covers :
      0 < (switched u (next_unit p).1).active
      → (switched u (next_unit p).1).active ≤ (complete_prefix (length p.tracks) u).0
  prefix_covers some_layer = ground (arith, active-switched)

  pub advance_round-Shown :
      (r : NativePlayback) → advance_round now p ≡ presented u r → Shown now p u r
  advance_round-Shown r e =
      let (found, (t, at, due), some_layer, result) = advance_round-presented now p u r e in
      let (m, (s, at', after), fewer) = next_unit-found p u found in
      let same : s ≡ t = ground (arith, at, at') in
      let covers = prefix_covers some_layer in
      let active : r.active ≡ (switched u (next_unit p).1).active =
        ap (λ (x : NativePlayback). x.active) (sym result) ∙ (present-fields u now _).0 in
      let pending : r.pending ≡ delete_unit u.key (next_unit p).1.pending =
        ap (λ (x : NativePlayback). x.pending) (sym result)
        ∙ (present-fields u now _).1
        ∙ ap (delete_unit u.key) (switch_layers-pending _ _ (next_unit p).1) in
      record {
        was_pending = m;
        stamp = t;
        stamped = at;
        later = rw (← same) after;
        due = rw (← next_unit-deadline p t) due;
        recorded =
            ap (λ (x : NativePlayback). x.last_presented) (sym result)
            ∙ present-last u now _ (length p.tracks) t (omega arith) at;
        some_layer = rw active some_layer;
        complete = λ i below. complete_prefix-layers (length p.tracks) i t u (omega arith) at;
        raised = λ more. ground (arith, active-switched);
        fewer = rw pending fewer;
      }
