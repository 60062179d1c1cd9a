-- ===== src/Media/Runs.antt =====
-- The runs of objects that the publisher's loops make.
use moqlivemock_svc.Base.{ℕ, ◌+◌, ◌*◌, ◌<◌, ◌≡◌, List, [], ◌∷◌, ◌==◌}
use moqlivemock_svc.Asset.Types.{ContentTrack}
use moqlivemock_svc.Timing.Loop.{source_nr}
use moqlivemock_svc.Media.Moqmi.{MoqmiObject}

-- Objects with consecutive sequence numbers from `n` on, each of which is the number of its sample:
-- the group's first sample is the group number times the group's length, where the decoder's record
-- goes with the first object of a group only.
abbrev pub IsNumbered : ContentTrack → ℕ → List MoqmiObject → Type 0
IsNumbered ct n [] = Unit
IsNumbered ct n (o ∷ objects) =
    (o.seq_id ≡ n)
    × (o.group * ct.gop_length + o.object_id ≡ n)
    × (o.object_id < ct.gop_length)
    × (o.pts ≡ n * ct.sample_dur)
    × (o.orig_nr ≡ source_nr ct n)
    × (o.extradata ≡ (o.object_id == 0))
    × IsNumbered ct (n + 1) objects
