-- ===== src/Playback/Prefix.antt =====
-- What `complete_prefix` and `timestamp` find in a unit.
use moqlivemock_svc.Base.{
  ℕ, zero, suc, ◌≤◌, ◌<◌, ◌+◌, ◌≡◌, refl, sym, ◌∙◌, Bool, none, some, List, [], ◌∷◌, arith, min,
  Option-cases, inl, inr,
}
use moqlivemock_svc.Playback.State.{PlaybackLayer, PlaybackUnit}
use moqlivemock_svc.Playback.Units.{layer_at, lowest, timestamp, prefix_from, complete_prefix}

-- Layer `i` of the unit is there, and has the given timestamp and flag.
abbrev pub HasLayer : PlaybackUnit → ℕ → ℕ → Bool → Type 0
HasLayer u i t b =
    (l : PlaybackLayer) × (layer_at i u.layers ≡ some l)
    × (l.timestamp_us ≡ t)
    × (l.independent ≡ b)

prefix_from-le :
    (n i : ℕ) (base : PlaybackLayer) (ls : List (ℕ × PlaybackLayer)) → prefix_from n i base ls ≤ n
unfolding prefix_from
prefix_from-le zero i base ls = omega arith
prefix_from-le (suc n) i base ls = ground (arith, prefix_from-le n (suc i) base ls)

-- A layer that the loop counts, at its index `m`.
abbrev LayerAt : List (ℕ × PlaybackLayer) → ℕ → PlaybackLayer → Type 0
LayerAt ls m base =
    (l : PlaybackLayer) × (layer_at m ls ≡ some l)
    × (l.timestamp_us ≡ base.timestamp_us)
    × (l.independent ≡ base.independent)

prefix_from-layers :
    (n i j m : ℕ) (base : PlaybackLayer) (ls : List (ℕ × PlaybackLayer))
    → i + j ≡ m
    → j < prefix_from n i base ls
    → LayerAt ls m base
unfolding prefix_from
prefix_from-layers zero i j m base ls e h = absurd (omega arith)
prefix_from-layers (suc n) i zero m base ls e h = elim (Option-cases (layer_at i ls)) [
  | inl missing ↦ absurd (ground arith)
  | inr (l, at) ↦ let same : i ≡ m = omega arith in (l, rw (← same) at, ground arith, ground arith)
]
prefix_from-layers (suc n) i (suc j) m base ls e h =
    prefix_from-layers n (suc i) j m base ls (omega arith) (ground arith)

lowest-zero : (t : ℕ) (ls : List (ℕ × PlaybackLayer)) → lowest (some (0, t)) ls ≡ some (0, t)
unfolding lowest
lowest-zero t [] = refl
lowest-zero t ((i, l) ∷ ls) = ground (arith, lowest-zero t ls)

lowest-base :
    (j t : ℕ) (ls : List (ℕ × PlaybackLayer)) (base : PlaybackLayer)
    → layer_at 0 ls ≡ some base
    → lowest (some (suc j, t)) ls ≡ some (0, base.timestamp_us)
unfolding lowest layer_at
lowest-base j t [] base e = cc
lowest-base j t ((zero, l) ∷ ls) base e = ground (arith, lowest-zero l.timestamp_us ls)
lowest-base j t ((suc i, l) ∷ ls) base e =
    ground (arith, lowest-base j t ls base, lowest-base i l.timestamp_us ls base)

lowest-none :
    (ls : List (ℕ × PlaybackLayer)) (base : PlaybackLayer)
    → layer_at 0 ls ≡ some base
    → lowest none ls ≡ some (0, base.timestamp_us)
unfolding lowest layer_at
lowest-none [] base e = cc
lowest-none ((zero, l) ∷ ls) base e = ground (arith, lowest-zero l.timestamp_us ls)
lowest-none ((suc i, l) ∷ ls) base e = ground (arith, lowest-base i l.timestamp_us ls base)

-- A unit with a base layer has the base layer's timestamp.
pub timestamp-base :
    (u : PlaybackUnit) (base : PlaybackLayer)
    → layer_at 0 u.layers ≡ some base
    → timestamp u ≡ some base.timestamp_us
unfolding timestamp
timestamp-base u base e = rw (lowest-none u.layers base e)

-- At most as many layers as there are tracks are complete.
pub complete_prefix-le : (n : ℕ) (u : PlaybackUnit) → (complete_prefix n u).0 ≤ n
unfolding complete_prefix
complete_prefix-le n u = elim (Option-cases (layer_at 0 u.layers)) [
  | inl missing ↦ ground arith
  | inr (base, at) ↦ ground (arith, prefix_from-le (min n u.invalid_from) 0 base u.layers)
]

-- The base layer of a unit with a complete layer.
pub complete_prefix-base :
    (n : ℕ) (u : PlaybackUnit)
    → 0 < (complete_prefix n u).0
    → (base : PlaybackLayer) × (layer_at 0 u.layers ≡ some base)
      × (base.independent ≡ (complete_prefix n u).1)
unfolding complete_prefix
complete_prefix-base n u h = elim (Option-cases (layer_at 0 u.layers)) [
  | inl missing ↦ absurd (ground arith)
  | inr (base, at) ↦ (base, at, ground arith)
]

complete_prefix-at :
    (n i : ℕ) (u : PlaybackUnit) (base : PlaybackLayer)
    → layer_at 0 u.layers ≡ some base
    → i < (complete_prefix n u).0
    → LayerAt u.layers i base
unfolding complete_prefix
complete_prefix-at n i u base at h =
    prefix_from-layers (min n u.invalid_from) 0 i i base u.layers (omega arith) (ground arith)

-- The complete layers are there, and share their timestamp and flag with the base layer.
pub complete_prefix-layers :
    (n i t : ℕ) (u : PlaybackUnit)
    → i < (complete_prefix n u).0
    → timestamp u ≡ some t
    → HasLayer u i t (complete_prefix n u).1
complete_prefix-layers n i t u h e =
    let (base, at, flag) = complete_prefix-base n u (omega arith) in
    let (l, at', time, same) = complete_prefix-at n i u base at h in
    let stamp : some base.timestamp_us ≡ some t = sym (timestamp-base u base at) ∙ e in
    (l, at', cc (time, stamp), same ∙ flag)
