-- ===== src/Playback/Advance.antt =====
-- `advance`, `tryStart`, `present` and `nextAdvanceDeadline` of internal/sub/playback.go.
use moqlivemock_svc.Base.{
  ℕ, zero, suc, ◌+◌, Bool, true, false, not, ◌||◌, Option, none, some, List, [], ◌∷◌, ◌++◌, ltb,
  ◌==◌, if◌then◌else◌, length, get_or,
}
use moqlivemock_svc.Base.Int.{ℤ, ◌+ℤ◌, ltb_ℤ}
use moqlivemock_svc.Playback.State.{
  PlaybackLayer, PlaybackUnit, NativePlayback, playing, buffering, stable, waiting_independent,
  enter_stall, leave_stall, unix_micro, presentation_deadline,
}
use moqlivemock_svc.Playback.Units.{
  layer_at, timestamp, complete_prefix, sorted_units, delete_unit, next_unit, timestamp_or_zero,
  buffer_for,
}

-- `for i := from; i < len(valid); i++ { valid[i] = false }`
unfoldable pub clear_from : ℕ → List Bool → List Bool
clear_from n [] = []
clear_from zero (v ∷ vs) = false ∷ clear_from zero vs
clear_from (suc n) (v ∷ vs) = v ∷ clear_from n vs

-- `for i := 0; i < n; i++ { valid[i] = true }`; past the end the source would panic.
unfoldable pub set_below : ℕ → List Bool → List Bool
set_below zero vs = vs
set_below (suc n) [] = []
set_below (suc n) (v ∷ vs) = true ∷ set_below n vs

-- `for p.active >= 0 && (p.active > prefix || !p.valid[p.active]) { p.active-- }`
unfoldable pub lower_active : ℕ → ℕ → List Bool → ℕ
lower_active zero prefix valid = zero
lower_active (suc a) prefix valid =
    let lower = lower_active a prefix valid in
    if ltb prefix (suc a) || not (get_or valid a false) then lower else suc a

abbrev pub bytes_of : Option PlaybackLayer → ℕ
bytes_of none = 0
bytes_of (some l) = l.bytes

-- The bytes of the layers with index below `n`.
unfoldable pub sum_bytes : ℕ → PlaybackUnit → ℕ
sum_bytes zero u = 0
sum_bytes (suc n) u = sum_bytes n u + bytes_of (layer_at n u.layers)

unfoldable pub present : PlaybackUnit → ℤ → NativePlayback → NativePlayback
unfolding sum_bytes
present u now p = record p {
  played = p.played ++ record { at = now; bytes = sum_bytes p.active u } ∷ [];
  last_presented = some (timestamp_or_zero (layer_at 0 u.layers));
  last_presented_at = some now;
  pending = delete_unit u.key p.pending;
  started = true;
  state = playing;
  switch_state = if ltb p.active (suc p.target) then waiting_independent else stable;
}

-- What `advance` does to `valid` and `active` for a unit of which `prefix` layers are complete.
unfoldable pub switch_layers : ℕ → Bool → NativePlayback → NativePlayback
unfolding clear_from set_below lower_active
switch_layers prefix independent p =
    let valid = if ltb prefix p.active then clear_from prefix p.valid else p.valid in
    if independent
    then record p { valid = set_below prefix valid; active = prefix }
    else record p { valid = valid; active = lower_active p.active prefix valid }

-- How one round of the loop of `advance` ends: the loop returns, or a unit was presented.
pub data Round : Type 0 where
  stop : NativePlayback → Round
  presented : PlaybackUnit → NativePlayback → Round

unfoldable pub show_unit : ℤ → PlaybackUnit → NativePlayback → Round
unfolding switch_layers
show_unit now u p =
    let (prefix, independent) = complete_prefix (length p.tracks) u in
    let q = switch_layers prefix independent p in
    if q.active == 0
    then stop (record (enter_stall now q) { switch_state = waiting_independent })
    else presented u (present u now q)

unfoldable pub advance_round : ℤ → NativePlayback → Round
unfolding show_unit
advance_round now p =
    let (found, q) = next_unit p in
    elim found [
      | none ↦ stop q
      | some u ↦ elim (timestamp u) [
        | none ↦ stop q
        | some t ↦ if ltb_ℤ now (presentation_deadline q t) then stop q else show_unit now u q
      ]
    ]

-- The loop of `advance`; `none` is no result of the source, it means that the fuel ran out.
unfoldable pub advance_loop : ℕ → ℤ → NativePlayback → Option NativePlayback
advance_loop zero now p = none
advance_loop (suc fuel) now p = elim (advance_round now p) [
  | stop q ↦ some q
  | presented u q ↦ advance_loop fuel now q
]

-- `!independent || prefix < 0 || p.bufferFor(unit, prefix) < p.minimalBuffer`
unfoldable pub is_unready : NativePlayback → PlaybackUnit → Bool
is_unready p u =
    let (prefix, independent) = complete_prefix (length p.tracks) u in
    not independent || prefix == 0 || ltb_ℤ (buffer_for p u prefix) p.minimal_buffer

-- `time.UnixMicro(int64(base.timestampUs)).Add(p.targetLatency)`
unfoldable pub start_time : NativePlayback → PlaybackUnit → ℤ
start_time p u = unix_micro (timestamp_or_zero (layer_at 0 u.layers)) +ℤ p.target_latency

-- How the loop of `tryStart` over the sorted units ends.
pub data Start : Type 0 where
  no_candidate : Start
  early : Start
  start_at : PlaybackUnit → Start

unfoldable pub start_in : ℤ → NativePlayback → List PlaybackUnit → Start
start_in now p [] = no_candidate
start_in now p (u ∷ us) =
    let rest = start_in now p us in
    if is_unready p u then rest else if ltb_ℤ now (start_time p u) then early else start_at u

-- The branch of `tryStart` that presents its first unit.
unfoldable pub start_with : ℤ → PlaybackUnit → NativePlayback → NativePlayback
start_with now u p =
    let prefix = (complete_prefix (length p.tracks) u).0 in
    let q = record p { valid = set_below prefix p.valid; active = prefix } in
    present u now (leave_stall now q)

unfoldable pub try_start : ℤ → NativePlayback → NativePlayback
unfolding start_in start_with
try_start now p = elim (start_in now p (sorted_units p.pending)) [
  | early ↦ record p { state = buffering }
  | start_at u ↦ start_with now u p
  | no_candidate ↦
      if p.started
      then record (enter_stall now p) { switch_state = waiting_independent }
      else record p { state = buffering }
]

-- A round that presents takes a unit from the pending ones, so one more round than these is enough.
unfoldable pub advance : ℤ → NativePlayback → Option NativePlayback
unfolding advance_loop try_start
advance now p =
    if not p.simulated
    then some p
    else if p.active == 0
    then some (try_start now p)
    else advance_loop (suc (length p.pending)) now p

-- The loop of `nextAdvanceDeadline` for a player with no active layer.
unfoldable pub start_deadline : NativePlayback → List PlaybackUnit → Option ℤ
start_deadline p [] = none
start_deadline p (u ∷ us) =
    let rest = start_deadline p us in if is_unready p u then rest else some (start_time p u)

-- The state changes too: `nextUnit` deletes units that are late.
unfoldable pub next_advance_deadline : NativePlayback → Option ℤ × NativePlayback
unfolding start_deadline
next_advance_deadline p =
    if not p.simulated
    then (none, p)
    else if p.active == 0
    then (start_deadline p (sorted_units p.pending), p)
    else let (found, q) = next_unit p in
      (
        elim found [
          | none ↦ none
          | some u ↦ elim (timestamp u) [ none ↦ none | some t ↦ some (presentation_deadline q t) ]
        ],
        q,
      )
