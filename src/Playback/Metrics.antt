-- ===== src/Playback/Metrics.antt =====
-- What `snapshot` of internal/sub/playback.go does to the player, and the numbers that it reads off
-- the byte windows and the pending units: `trimByteWindow`, `byteRate`, `playheadTimestamp` and
-- `bufferAhead`. A rate, a float64 of a whole number in the source, is kept as the number.
use moqlivemock_svc.Base.{
  ℕ, ◌+◌, ◌-◌, ◌*◌, ◌/◌, true, false, Option, none, some, List, [], ◌∷◌, leb, ltb, ◌==◌,
  if◌then◌else◌, length,
}
use moqlivemock_svc.Base.Int.{ℤ, pos, negsuc, ◌-ℤ◌, ltb_ℤ}
use moqlivemock_svc.Base.Words.{u64}
use moqlivemock_svc.Playback.State.{TimedBytes, PlaybackUnit, NativePlayback, micros}
use moqlivemock_svc.Playback.Units.{layer_at, timestamp, complete_prefix, sorted_units}

unfoldable pub trim_byte_window : List TimedBytes → ℤ → List TimedBytes
trim_byte_window [] now = []
trim_byte_window (sample ∷ samples) now =
    let rest = trim_byte_window samples now in
    if ltb_ℤ sample.at (now -ℤ pos 1000000000) then rest else sample ∷ samples

unfoldable pub sum_samples : List TimedBytes → ℕ
sum_samples [] = 0
sum_samples (sample ∷ samples) = sample.bytes + sum_samples samples

unfoldable pub byte_rate : List TimedBytes → ℕ
unfolding sum_samples
byte_rate samples = sum_samples samples * 8

-- `uint64(elapsed.Microseconds())` where the time that passed is above 0, else 0.
abbrev pub elapsed_micros : ℤ → ℕ
elapsed_micros (pos ns) = ns / 1000
elapsed_micros (negsuc ns) = 0

abbrev pub until : Option ℤ → ℤ → ℤ
until none now = now
until (some since) now = if ltb_ℤ since now then since else now

unfoldable pub playhead_timestamp : NativePlayback → ℤ → ℕ
playhead_timestamp p now = elim p.last_presented [
  | none ↦ 0
  | some last ↦ elim p.last_presented_at [
    | none ↦ 0
    | some at ↦ u64 (last + elapsed_micros (until p.stall_started now -ℤ at))
  ]
]

-- The loop of `bufferAhead`: the last timestamp up to which the active layers are there.
unfoldable pub latest_ahead : ℕ → ℕ → ℕ → List PlaybackUnit → ℕ
latest_ahead n_tracks active latest [] = latest
latest_ahead n_tracks active latest (u ∷ us) = elim (timestamp u) [
  | none ↦ latest_ahead n_tracks active latest us
  | some t ↦ elim (leb t latest) [
    | true ↦ latest_ahead n_tracks active latest us
    | false ↦ elim (layer_at 0 u.layers) [
      | none ↦ latest
      | some base ↦ elim (ltb (complete_prefix n_tracks u).0 active) [
        | true ↦ latest
        | false ↦ latest_ahead n_tracks active base.timestamp_us us
      ]
    ]
  ]
]

unfoldable pub buffer_ahead : NativePlayback → ℤ → ℤ
unfolding latest_ahead playhead_timestamp sorted_units
buffer_ahead p now = if p.active == 0 then pos 0 else elim p.last_presented [
  | none ↦ pos 0
  | some last ↦
      let latest = latest_ahead (length p.tracks) p.active last (sorted_units p.pending) in
      let playhead = playhead_timestamp p now in
      if leb latest playhead then pos 0 else micros (latest - playhead)
]

-- The player after `snapshot`.
unfoldable pub after_snapshot : ℤ → NativePlayback → NativePlayback
unfolding trim_byte_window
after_snapshot now p = record p {
  received = trim_byte_window p.received now;
  played = trim_byte_window p.played now;
}
