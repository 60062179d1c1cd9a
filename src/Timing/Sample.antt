-- ===== src/Timing/Sample.antt =====
-- `CalcSample` of internal/asset.go.
use moqlivemock_svc.Base.{ℕ, ◌+◌, ◌-◌, ◌*◌, ◌/◌, ◌%◌, ltb, if◌then◌else◌}
use moqlivemock_svc.Base.Words.{u64, sub_u64}
use moqlivemock_svc.Asset.Types.{ContentTrack}

-- `wrapTime`, raised to the next multiple of the sample duration.
abbrev pub aligned_wrap : ContentTrack → ℕ → ℕ
aligned_wrap t wrap_time =
    let lacking = wrap_time % t.sample_dur in
    if ltb 0 lacking then u64 (wrap_time + (t.sample_dur - lacking)) else wrap_time

-- The start time and the sample of the source clip for an output sample number.
unfoldable pub calc_sample : ContentTrack → ℕ → ℕ × ℕ
calc_sample t nr =
    let start_time = u64 (nr * t.sample_dur) in
    let nr_wraps = start_time / t.loop_dur in
    let wrap_time = u64 (nr_wraps * t.loop_dur) in
    let delta_time = sub_u64 start_time (aligned_wrap t wrap_time) in
    (start_time, delta_time / t.sample_dur)
