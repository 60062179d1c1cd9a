-- ===== src/Asset/Loops.antt =====
-- The loop durations that `set_loop_duration` gives.
use moqlivemock_svc.Base.{
  ℕ, ◌+◌, ◌*◌, ◌/◌, ◌<◌, ◌≤◌, ◌≡◌, Bool, true, false, not, ◌&&◌, Option, none, some, List, [], ◌∷◌,
  str_eq, ltb, ◌==◌, if◌then◌else◌, arith, Option-cases, Bool-cases, inl, inr,
}
use moqlivemock_svc.Base.Words.{u32}
use moqlivemock_svc.Asset.Types.{ContentTrack, TrackGroup, Asset}
use moqlivemock_svc.Asset.Setup.{
  track_loop_dur, set_track_loops, set_group_loops, LoopResult, looped, loop_dur_ms_of,
  set_loop_duration, loop_from, first_tracks,
}

abbrev pub AllTracks : (ContentTrack → Type 0) → List ContentTrack → Type 0
AllTracks P [] = Unit
AllTracks P (t ∷ tracks) = P t × AllTracks P tracks

abbrev pub AllGroups : (ContentTrack → Type 0) → List TrackGroup → Type 0
AllGroups P [] = Unit
AllGroups P (g ∷ groups) = AllTracks P g.tracks × AllGroups P groups

-- The two products of a track fit a uint32, for a loop of `ms` milliseconds.
abbrev pub Fits : ℕ → ContentTrack → Type 0
Fits ms t = (t.duration * 1000 < 4294967296) × (ms * t.time_scale < 4294967296)

-- A loop is no longer than its track, and shorter than `ms` milliseconds by less than a tick.
abbrev pub IsLoop : ℕ → ContentTrack → Type 0
IsLoop ms t =
    (t.loop_dur ≤ t.duration)
    × (t.loop_dur * 1000 ≤ ms * t.time_scale)
    × (ms * t.time_scale < t.loop_dur * 1000 + 1000)

-- The two tests, on products that fit.
equal_loop :
    (d ms ts dur : ℕ)
    → d * 1000 < 4294967296
    → ms * ts < 4294967296
    → (if u32 (d * 1000) == u32 (ms * ts) then some d else none) ≡ some dur
    → (dur ≤ d) × (dur * 1000 ≤ ms * ts) × (ms * ts < dur * 1000 + 1000)
equal_loop d ms ts dur fit fit' e = ground arith

longer_loop :
    (d ms ts dur : ℕ)
    → d * 1000 < 4294967296
    → ms * ts < 4294967296
    → (if ltb (u32 (d * 1000)) (u32 (ms * ts)) then none else some (u32 (ms * ts) / 1000))
      ≡ some dur
    → (dur ≤ d) × (dur * 1000 ≤ ms * ts) × (ms * ts < dur * 1000 + 1000)
longer_loop d ms ts dur fit fit' e = ground arith

track_loop_dur-IsLoop :
    (first_group : Bool) (ms : ℕ) (t : ContentTrack) (dur : ℕ)
    → Fits ms t
    → track_loop_dur first_group ms t ≡ some dur
    → IsLoop ms (record t { loop_dur = dur })
unfolding track_loop_dur
track_loop_dur-IsLoop first ms t dur (fit, fit') e =
    elim (Bool-cases (not first && str_eq t.content_type "audio")) [
      | inl audio ↦
          longer_loop t.duration ms t.time_scale dur fit fit' (rw (track_loop_dur, audio) at e)
      | inr other ↦
          equal_loop t.duration ms t.time_scale dur fit fit' (rw (track_loop_dur, other) at e)
    ]

abbrev IfSome {ℓ κ} : {A : Type ℓ} → (A → Type κ) → Option A → Type κ
IfSome P none = Unit
IfSome P (some a) = P a

set_track_loops-IsLoop :
    (first_group : Bool) (ms : ℕ) (ts : List ContentTrack)
    → AllTracks (Fits ms) ts
    → IfSome (AllTracks (IsLoop ms)) (set_track_loops first_group ms ts)
unfolding set_track_loops
set_track_loops-IsLoop first ms [] fit = tt
set_track_loops-IsLoop first ms (t ∷ ts) (fit, fits) =
    let rest-IsLoop = set_track_loops-IsLoop first ms ts fits in
    elim (Option-cases (track_loop_dur first ms t)) [
      | inl bad ↦ rw (set_track_loops, IfSome, bad) tt
      | inr (dur, own) ↦ elim (Option-cases (set_track_loops first ms ts)) [
        | inl bad ↦ rw (set_track_loops, IfSome, own, bad) tt
        | inr (rest, others) ↦
            rw (set_track_loops, IfSome, own, others)
              (track_loop_dur-IsLoop first ms t dur fit own, rw (others) at rest-IsLoop)
      ]
    ]

set_group_loops-IsLoop :
    (first_group : Bool) (ms : ℕ) (gs : List TrackGroup)
    → AllGroups (Fits ms) gs
    → IfSome (AllGroups (IsLoop ms)) (set_group_loops first_group ms gs)
unfolding set_group_loops
set_group_loops-IsLoop first ms [] fit = tt
set_group_loops-IsLoop first ms (g ∷ gs) (fit, fits) =
    let own-IsLoop = set_track_loops-IsLoop first ms g.tracks fit in
    let rest-IsLoop = set_group_loops-IsLoop false ms gs fits in
    elim (Option-cases (set_track_loops first ms g.tracks)) [
      | inl bad ↦ rw (set_group_loops, IfSome, bad) tt
      | inr (tracks, own) ↦ elim (Option-cases (set_group_loops false ms gs)) [
        | inl bad ↦ rw (set_group_loops, IfSome, own, bad) tt
        | inr (rest, others) ↦
            rw (set_group_loops, IfSome, own, others)
              (rw (own) at own-IsLoop, rw (others) at rest-IsLoop)
      ]
    ]

abbrev Loops : List TrackGroup → LoopResult → Type 0
Loops gs (looped b) = AllGroups (Fits b.loop_dur_ms) gs → AllGroups (IsLoop b.loop_dur_ms) b.groups
Loops gs _ = Unit

loop_from-Loops : (a : Asset) (tracks : List ContentTrack) → Loops a.groups (loop_from a tracks)
unfolding loop_from
loop_from-Loops a [] = tt
loop_from-Loops a (t ∷ tracks) = elim (Bool-cases (t.time_scale == 0)) [
  | inl zero_scale ↦ rw (loop_from, Loops, zero_scale) tt
  | inr some_scale ↦ elim (Option-cases (set_group_loops true (loop_dur_ms_of t) a.groups)) [
    | inl bad ↦ rw (loop_from, Loops, some_scale, bad) tt
    | inr (gs, made) ↦
        rw (loop_from, Loops, some_scale, made)
          (λ fits. rw (made) at (set_group_loops-IsLoop true (loop_dur_ms_of t) a.groups fits))
  ]
]

-- Where the two products of each track fit a uint32, a loop duration that is set is no longer than
-- its track, and it is the asset's loop duration in whole ticks of the track's clock, rounded down.
pub set_loop_duration-IsLoop :
    (a b : Asset)
    → set_loop_duration a ≡ looped b
    → AllGroups (Fits b.loop_dur_ms) a.groups
    → AllGroups (IsLoop b.loop_dur_ms) b.groups
unfolding set_loop_duration
set_loop_duration-IsLoop a b e = elim (Option-cases (first_tracks a.groups)) [
  | inl empty ↦ absurd (cc)
  | inr (tracks, first) ↦
      let same : loop_from a tracks ≡ looped b = rw (set_loop_duration, first) at e in
      let loops = loop_from-Loops a tracks in rw (same) at loops
]
