-- ===== src/Tests/Publisher.antt =====
-- The publisher's groups of a short track.
use moqlivemock_svc.Base.{
  ℕ, ◌+◌, ◌-◌, ◌*◌, ◌/◌, ◌≤◌, ◌<◌, ◌≡◌, ◌↔◌, refl, true, none, some, List, length, arith,
  if◌then◌else◌, ◌==◌,
}
use moqlivemock_svc.Asset.Types.{FullSample}
use moqlivemock_svc.Asset.Setup.{set_loop_duration}
use moqlivemock_svc.Asset.Loops.{AllGroups, IsLoop, set_loop_duration-IsLoop}
use moqlivemock_svc.Timing.Group.{calc_moq_group, group_chunks}
use moqlivemock_svc.Timing.Sample.{calc_sample}
use moqlivemock_svc.Timing.Cover.{calc_moq_group-covers}
use moqlivemock_svc.Timing.Loop.{calc_sample-lt, calc_sample-next}
use moqlivemock_svc.Timing.Chunk.{Tiles, group_chunks-Tiles}
use moqlivemock_svc.Media.Fragment.{create_fragment, samples}
use moqlivemock_svc.Media.LocTrack.{loc_group, complete}
use moqlivemock_svc.Media.Complete.{
  IsLooping, IsSource, IsTimed, create_fragment-IsSource, loc_group-IsTimed,
}
use moqlivemock_svc.Tests.Data.{short_track, short_loc_track, short_asset, looped_asset}

short_track-IsLooping : IsLooping short_track
short_track-IsLooping = record {
  sample_dur_pos = omega arith;
  loop_dur_pos = omega arith;
  covered = omega arith;
}

calc_moq_group-covers_example :
    (((calc_moq_group short_track 5 1000).0 ≤ 10) × (10 < (calc_moq_group short_track 5 1000).1))
    ↔ (5 ≡ ((10 * 1 + 1) * 1000 - 1) / (1000 * 2))
calc_moq_group-covers_example =
    calc_moq_group-covers short_track 5 1000 10 (omega arith) (omega arith) (omega arith)
      (omega arith)

calc_sample-lt_example : (calc_sample short_track 7).1 < 3
calc_sample-lt_example =
    calc_sample-lt short_track 7 3 (omega arith) (omega arith) (omega arith) (omega arith)

calc_sample-next_example :
    (calc_sample short_track (8 + 1)).1
    ≡ (if (8 + 1) * 1 / 3 == 8 * 1 / 3 then (calc_sample short_track 8).1 + 1 else 0)
calc_sample-next_example = calc_sample-next short_track 8 (omega arith) (omega arith) (omega arith)

group_chunks-Tiles_example :
    (chunks : List (ℕ × ℕ)) × (group_chunks 2 10 15 ≡ some chunks) × Tiles 2 10 15 chunks
group_chunks-Tiles_example = group_chunks-Tiles 2 10 15 (omega arith) (omega arith) (omega arith)

create_fragment-IsSource_example :
    (made : List FullSample) × (create_fragment
        (λ bytes nal codec. some bytes)
        short_track
        10
        14
        none
      ≡ samples made)
    × (length made ≡ 14 - 10)
    × IsSource short_track 10 made
create_fragment-IsSource_example =
    create_fragment-IsSource (λ bytes nal codec. some bytes) short_track 10 14 short_track-IsLooping
      (omega arith) (omega arith)

loc_group-IsTimed_example :
    let made =
      loc_group (λ bytes. true) (λ bytes nal. some bytes) (λ n. true) short_loc_track none 5 1000 in
    (made.1 ≡ complete) × (length made.0 ≡ 12 - 10) × IsTimed short_track 0 10 made.0
unfolding calc_moq_group
loc_group-IsTimed_example =
    loc_group-IsTimed (λ bytes. true) (λ bytes nal. some bytes) (λ n. true) none short_loc_track 5
      short_track-IsLooping refl
      (record {
        time_scale_pos = omega arith;
        time_scale_small = omega arith;
        ticks_fit = omega arith;
        micros_fit = omega arith;
      })
      (omega arith) (λ n. refl)

set_loop_duration-IsLoop_example : AllGroups (IsLoop 1500) looped_asset.groups
unfolding set_loop_duration
set_loop_duration-IsLoop_example =
    set_loop_duration-IsLoop short_asset looped_asset refl (((omega arith, omega arith), tt), tt)
