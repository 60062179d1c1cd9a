-- ===== src/Playback/Units.antt =====
-- The pending units of internal/sub/playback.go: `timestamp`, `completePrefix`, `sortedUnits`,
-- `nextUnit`, `bufferFor` and `trimPending`.
use mathlib.Core.Option
use moqlivemock_svc.Base.{
  ℕ, zero, suc, Bool, true, false, not, ◌&&◌, ◌||◌, Option, none, some, List, [], ◌∷◌, ltb, ◌==◌,
  if◌then◌else◌, length, min,
}
use moqlivemock_svc.Base.Int.{ℤ}
use moqlivemock_svc.Base.Words.{sub_u64}
use moqlivemock_svc.Base.Sort.{sort}
use moqlivemock_svc.Playback.State.{
  PlaybackUnitKey, PlaybackLayer, PlaybackUnit, NativePlayback, micros,
}

abbrev pub max_pending_units : ℕ
max_pending_units = 64

abbrev pub same_bool : Bool → Bool → Bool
same_bool true b = b
same_bool false b = not b

abbrev pub same_key : PlaybackUnitKey → PlaybackUnitKey → Bool
same_key a b = a.group == b.group && a.object == b.object

unfoldable pub layer_at : ℕ → List (ℕ × PlaybackLayer) → Option PlaybackLayer
layer_at i [] = none
layer_at i ((j, l) ∷ ls) = if j == i then some l else layer_at i ls

-- The loop of `timestamp`: the lowest index so far and its timestamp.
unfoldable pub lowest : Option (ℕ × ℕ) → List (ℕ × PlaybackLayer) → Option (ℕ × ℕ)
lowest found [] = found
lowest none ((i, l) ∷ ls) = lowest (some (i, l.timestamp_us)) ls
lowest (some (j, t)) ((i, l) ∷ ls) =
    lowest (if ltb i j then some (i, l.timestamp_us) else some (j, t)) ls

unfoldable pub timestamp : PlaybackUnit → Option ℕ
unfolding lowest
timestamp u = Option.map (λ r. r.1) (lowest none u.layers)

-- The loop of `completePrefix` from index `i`, with `n` indices left below both bounds: how many
-- layers in a row match the base layer.
unfoldable pub prefix_from : ℕ → ℕ → PlaybackLayer → List (ℕ × PlaybackLayer) → ℕ
prefix_from zero i base ls = 0
prefix_from (suc n) i base ls = elim (layer_at i ls) [
  | none ↦ 0
  | some l ↦
      if l.timestamp_us == base.timestamp_us && same_bool l.independent base.independent
      then suc (prefix_from n (suc i) base ls)
      else 0
]

-- The number of complete layers (the source's prefix plus one) and the base layer's flag.
unfoldable pub complete_prefix : ℕ → PlaybackUnit → ℕ × Bool
unfolding prefix_from layer_at
complete_prefix n_tracks u =
    if u.invalid_from == 0 then (0, false) else elim (layer_at 0 u.layers) [
      | none ↦ (0, false)
      | some base ↦ (prefix_from (min n_tracks u.invalid_from) 0 base u.layers, base.independent)
    ]

unfoldable pub key_less : PlaybackUnitKey → PlaybackUnitKey → Bool
key_less a b = if a.group == b.group then ltb a.object b.object else ltb a.group b.group

-- The comparison of `sortedUnits`.
unfoldable pub unit_less : PlaybackUnit → PlaybackUnit → Bool
unfolding key_less
unit_less a b = elim (timestamp a) [
  | none ↦ elim (timestamp b) [ none ↦ key_less a.key b.key | some t ↦ false ]
  | some s ↦ elim (timestamp b) [
    | none ↦ true
    | some t ↦ if s == t then key_less a.key b.key else ltb s t
  ]
]

-- Keys differ, so the comparison leaves one order only and any sort gives the same list.
unfoldable pub sorted_units : List PlaybackUnit → List PlaybackUnit
sorted_units = sort unit_less

unfoldable pub delete_unit : PlaybackUnitKey → List PlaybackUnit → List PlaybackUnit
delete_unit k [] = []
delete_unit k (u ∷ us) = if same_key u.key k then delete_unit k us else u ∷ delete_unit k us

abbrev pub is_after : Option ℕ → ℕ → Bool
is_after none t = true
is_after (some last) t = ltb last t

-- The loop of `nextUnit` over the sorted units: the unit found, and the units still pending.
unfoldable pub next_in :
    Option ℕ → List PlaybackUnit → List PlaybackUnit → Option PlaybackUnit × List PlaybackUnit
next_in last [] pending = (none, pending)
next_in last (u ∷ us) pending = elim (timestamp u) [
  | none ↦ next_in last us pending
  | some t ↦
      let rest = next_in last us (delete_unit u.key pending) in
      if is_after last t then (some u, pending) else rest
]

unfoldable pub next_unit : NativePlayback → Option PlaybackUnit × NativePlayback
unfolding next_in sorted_units
next_unit p =
    let (found, pending) = next_in p.last_presented (sorted_units p.pending) p.pending in
    (found, record p { pending = pending })

-- The zero layer is what the source reads at a missing index.
abbrev pub timestamp_or_zero : Option PlaybackLayer → ℕ
timestamp_or_zero none = 0
timestamp_or_zero (some l) = l.timestamp_us

-- The loop of `bufferFor` over the sorted units.
unfoldable pub buffer_scan : ℕ → PlaybackUnitKey → ℕ → ℕ → Bool → ℕ → List PlaybackUnit → ℕ
buffer_scan n_tracks first start prefix seen latest [] = latest
buffer_scan n_tracks first start prefix seen latest (u ∷ us) = elim (timestamp u) [
  | none ↦ buffer_scan n_tracks first start prefix seen latest us
  | some t ↦ elim (ltb t start) [
    | true ↦ buffer_scan n_tracks first start prefix seen latest us
    | false ↦ elim (seen || same_key u.key first) [
      | false ↦ buffer_scan n_tracks first start prefix false latest us
      | true ↦ elim (layer_at 0 u.layers) [
        | none ↦ latest
        | some base ↦ elim (ltb (complete_prefix n_tracks u).0 prefix) [
          | true ↦ latest
          | false ↦ buffer_scan n_tracks first start prefix true base.timestamp_us us
        ]
      ]
    ]
  ]
]

unfoldable pub buffer_for : NativePlayback → PlaybackUnit → ℕ → ℤ
unfolding buffer_scan sorted_units
buffer_for p first prefix =
    let start = timestamp_or_zero (layer_at 0 first.layers) in
    let latest =
      buffer_scan (length p.tracks) first.key start prefix false start (sorted_units p.pending) in
    micros (sub_u64 latest start)

-- `trimPending`; each round deletes a unit, so as many rounds as units are enough.
unfoldable pub trim_loop : ℕ → List PlaybackUnit → List PlaybackUnit
trim_loop zero us = us
trim_loop (suc fuel) us = elim (ltb max_pending_units (length us)) [
  | false ↦ us
  | true ↦ elim (sorted_units us) [
    | [] ↦ us
    | oldest ∷ _ ↦ trim_loop fuel (delete_unit oldest.key us)
  ]
]

unfoldable pub trim_pending : List PlaybackUnit → List PlaybackUnit
unfolding trim_loop
trim_pending us = trim_loop (length us) us
