-- ===== src/Playback/Levels.antt =====
-- The layers that are presented: the invariant of `valid` and `active`, and how they change.
use moqlivemock_svc.Base.{
  ℕ, suc, ◌≤◌, ◌<◌, ◌≡◌, refl, ◌∙◌, ap, Bool, true, false, arith, ltb, length, if◌then◌else◌,
}
use moqlivemock_svc.Base.Int.{ℤ}
use moqlivemock_svc.Playback.State.{PlaybackUnit, NativePlayback}
use moqlivemock_svc.Playback.Advance.{clear_from, switch_layers, present}
use moqlivemock_svc.Playback.Flags.{flags, clear_from-flags, set_below-flags, lower_active-flags}

-- `valid` says of each layer whether it is active: the active layers are the valid ones, and they
-- are the lowest. The target is the last track.
pub record IsLayered (p : NativePlayback) : Type 0 where
  pub in_range : p.active ≤ length p.tracks
  pub valid_below : p.valid ≡ flags p.active (length p.tracks)
  pub target_last : suc p.target ≡ length p.tracks

abbrev pub switched_active : ℕ → Bool → ℕ → ℕ
switched_active prefix independent active =
    if independent then prefix else if ltb prefix active then prefix else active

pub switch_layers-active :
    (prefix : ℕ) (independent : Bool) (p : NativePlayback)
    → IsLayered p
    → prefix ≤ length p.tracks
    → (switch_layers prefix independent p).active ≡ switched_active prefix independent p.active
unfolding switch_layers
switch_layers-active prefix true p h le = refl
switch_layers-active prefix false p h le = ground (
  arith,
  lower_active-flags p.active prefix prefix (length p.tracks),
  lower_active-flags p.active prefix p.active (length p.tracks),
  clear_from-flags prefix p.active (length p.tracks),
)

cleared :
    (prefix : ℕ) (p : NativePlayback)
    → IsLayered p
    → prefix < p.active
    → clear_from prefix p.valid ≡ flags prefix (length p.tracks)
cleared prefix p h lt =
    ap (clear_from prefix) h.valid_below
    ∙ clear_from-flags prefix p.active (length p.tracks) (omega arith)

pub switch_layers-valid :
    (prefix : ℕ) (independent : Bool) (p : NativePlayback)
    → IsLayered p
    → prefix ≤ length p.tracks
    → (switch_layers prefix independent p).valid
      ≡ flags (switched_active prefix independent p.active) (length p.tracks)
unfolding switch_layers
switch_layers-valid prefix true p h le = ground (
  arith,
  cleared prefix p h,
  set_below-flags prefix prefix (length p.tracks),
  set_below-flags prefix p.active (length p.tracks),
)
switch_layers-valid prefix false p h le = ground (arith, cleared prefix p h)

switch_layers-tracks :
    (prefix : ℕ) (independent : Bool) (p : NativePlayback)
    → ((switch_layers prefix independent p).tracks ≡ p.tracks)
      × ((switch_layers prefix independent p).target ≡ p.target)
unfolding switch_layers
switch_layers-tracks prefix true p = (refl, refl)
switch_layers-tracks prefix false p = (refl, refl)

-- A switch of layers keeps the invariant, whatever the unit is.
pub switch_layers-IsLayered :
    (prefix : ℕ) (independent : Bool) (p : NativePlayback)
    → IsLayered p
    → prefix ≤ length p.tracks
    → IsLayered (switch_layers prefix independent p)
switch_layers-IsLayered prefix independent p h le =
    let (tracks, target) = switch_layers-tracks prefix independent p in
    let active = switch_layers-active prefix independent p h le in
    record {
      in_range = rw (active, tracks) (ground arith);
      valid_below = rw (active, tracks) (switch_layers-valid prefix independent p h le);
      target_last = rw (tracks, target) h.target_last;
    }

pub present-IsLayered :
    (u : PlaybackUnit) (now : ℤ) (p : NativePlayback) → IsLayered p → IsLayered (present u now p)
unfolding present
present-IsLayered u now p h = record {
  in_range = h.in_range;
  valid_below = h.valid_below;
  target_last = h.target_last;
}
