-- ===== src/Timing/Group.antt =====
-- `calcMoQGroup`, `CurrMoQGroupNr` and the chunk loop of `GenMoQGroup` of internal/moqgroup.go.
use moqlivemock_svc.Base.{
  ℕ, zero, suc, ◌+◌, ◌-◌, ◌*◌, ◌/◌, ◌%◌, true, false, Option, none, some, List, [], ◌∷◌, ltb, ◌==◌,
  if◌then◌else◌, min,
}
use moqlivemock_svc.Base.Words.{u64}
use moqlivemock_svc.Asset.Types.{ContentTrack}

-- `nr * uint64(constantDurMS) * uint64(track.TimeScale) / 1000`
abbrev pub group_time : ContentTrack → ℕ → ℕ → ℕ
group_time track nr constant_dur_ms = u64 (u64 (nr * constant_dur_ms) * track.time_scale) / 1000

-- The number of samples that start before the time: the division, and the step that rounds up.
abbrev pub samples_before : ContentTrack → ℕ → ℕ
samples_before track time =
    let nr = time / track.sample_dur in if time % track.sample_dur == 0 then nr else u64 (nr + 1)

-- The range [startNr, endNr) of sample numbers. The source divides by the sample duration and would
-- panic at 0.
unfoldable pub calc_moq_group : ContentTrack → ℕ → ℕ → ℕ × ℕ
calc_moq_group track nr constant_dur_ms = (
  samples_before track (group_time track nr constant_dur_ms),
  samples_before track (group_time track (u64 (nr + 1)) constant_dur_ms),
)

unfoldable pub curr_moq_group_nr : ℕ → ℕ → ℕ
curr_moq_group_nr now_ms constant_dur_ms = now_ms / constant_dur_ms

-- The loop `for i := startNr; i < endNr; i += uint64(sampleBatch)` of `GenMoQGroup`: the sample range
-- of each object. `none` means that the fuel ran out.
unfoldable pub chunk_loop : ℕ → ℕ → ℕ → ℕ → Option (List (ℕ × ℕ))
chunk_loop zero batch i end_nr = none
chunk_loop (suc fuel) batch i end_nr = elim (ltb i end_nr) [
  | false ↦ some []
  | true ↦ elim (chunk_loop fuel batch (u64 (i + batch)) end_nr) [
    | none ↦ none
    | some rest ↦ some ((i, min (u64 (i + batch)) end_nr) ∷ rest)
  ]
]

-- A chunk takes a sample at least, so one round more than there are samples is enough.
unfoldable pub group_chunks : ℕ → ℕ → ℕ → Option (List (ℕ × ℕ))
unfolding chunk_loop
group_chunks batch start_nr end_nr = chunk_loop (suc (end_nr - start_nr)) batch start_nr end_nr
