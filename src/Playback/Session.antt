-- ===== src/Playback/Session.antt =====
-- The life of a player of internal/sub/playback.go: the loop of `run` and the calls of `addObject`,
-- each under the mutex, in any order and at any times.
use moqlivemock_svc.Base.{
  ℕ, ◌≤◌, ◌≡◌, refl, ap, Bool, some, List, String, length, arith, Option-cases, inl, inr,
}
use moqlivemock_svc.Base.Int.{ℤ}
use moqlivemock_svc.Loc.Marking.{KeyValuePair}
use moqlivemock_svc.Playback.State.{NativePlayback}
use moqlivemock_svc.Playback.Units.{next_unit, max_pending_units}
use moqlivemock_svc.Playback.Object.{add_object, track_index, announced_layer}
use moqlivemock_svc.Playback.Advance.{advance, next_advance_deadline}
use moqlivemock_svc.Playback.Levels.{IsLayered}
use moqlivemock_svc.Playback.Rounds.{SameLevels, IsLayered-same}
use moqlivemock_svc.Playback.Run.{advance-IsLayered}
use moqlivemock_svc.Playback.Pending.{add_object_bounded}
use moqlivemock_svc.Playback.Metrics.{after_snapshot}
use moqlivemock_svc.Playback.Fewer.{advance-pending, next_advance_deadline-pending}
use moqlivemock_svc.Playback.Create.{created, new_native_playback}
use moqlivemock_svc.Playback.Created.{new_native_playback-Explains}
use moqlivemock_svc.Catalog.Types.{Catalog}

-- One step: an object that a subscription reads, a firing of the timer or the wake channel, the
-- deadline that `schedule` asks for, or the metrics.
pub data Step : NativePlayback → NativePlayback → Type 0 where
  arrives :
      {p : NativePlayback} (track_name : String) (group object : ℕ) (headers : List KeyValuePair)
      (size : ℕ) (now : ℤ)
      → Step p (add_object p track_name group object headers size now).0
  advances : {p q : NativePlayback} (now : ℤ) → advance now p ≡ some q → Step p q
  schedules : {p : NativePlayback} → Step p (next_advance_deadline p).1
  reports : {p : NativePlayback} (now : ℤ) → Step p (after_snapshot now p)

pub data Steps : NativePlayback → NativePlayback → Type 0 where
  at_rest : {p : NativePlayback} → Steps p p
  then_step : {p q r : NativePlayback} → Steps p q → Step q r → Steps p r

-- The invariant of a player: its layers, and the bound on its pending units.
pub record IsBounded (p : NativePlayback) : Type 0 where
  pub layered : IsLayered p
  pub few : length p.pending ≤ max_pending_units

add_object-same :
    (p : NativePlayback) (track_name : String) (group object : ℕ) (headers : List KeyValuePair)
    (size : ℕ) (now : ℤ)
    → SameLevels p (add_object p track_name group object headers size now).0
unfolding add_object
add_object-same p track_name group object headers size now =
    elim (Option-cases (track_index track_name 0 p.tracks)) [
      | inl unknown ↦ ground arith
      | inr ((index, track), at) ↦
          elim (Option-cases (announced_layer headers track.spatial_id size)) [
            | inl bad ↦ ground arith
            | inr (layer, good) ↦ ground arith
          ]
    ]

next_advance_deadline-same : (p : NativePlayback) → SameLevels p (next_advance_deadline p).1
unfolding next_advance_deadline next_unit
next_advance_deadline-same p = ground arith

Step-IsBounded : {p q : NativePlayback} → Step p q → IsBounded p → IsBounded q
unfolding after_snapshot
Step-IsBounded {p} (arrives track_name group object headers size now) h = record {
  layered =
      IsLayered-same p _ (add_object-same p track_name group object headers size now) h.layered;
  few = (add_object_bounded p track_name group object headers size now h.few).0;
}
Step-IsBounded {p} {q} (advances now e) h =
    let (r, runs, layered) = advance-IsLayered now p h.layered in
    let same : r ≡ q = cc in
    record { layered = rw (← same) layered; few = omega (arith, advance-pending now p q e, h.few) }
Step-IsBounded {p} schedules h = record {
  layered = IsLayered-same p _ (next_advance_deadline-same p) h.layered;
  few = omega (arith, next_advance_deadline-pending p, h.few);
}
Step-IsBounded {p} (reports now) h = record {
  layered = IsLayered-same p _ (refl, refl, refl, refl) h.layered;
  few = h.few;
}

pub Steps-IsBounded : {p q : NativePlayback} → Steps p q → IsBounded p → IsBounded q
Steps-IsBounded at_rest h = h
Steps-IsBounded (then_step steps step) h = Step-IsBounded step (Steps-IsBounded steps h)

-- A player that `newNativePlayback` makes, after any objects, any advances at any times, any deadlines
-- and any metrics, in any order: its valid layers are the active ones and the lowest, they are not more
-- than its tracks, the target is its last track, and at most 64 units are pending. From there `advance`
-- ends with a result at any time.
pub session-IsBounded :
    (lower : String → String) (has_prefix : String → String → Bool) (catalog : Catalog)
    (names : List String) (target_name : String) (simulated : Bool)
    (minimal_buffer target_latency : ℤ) (p q : NativePlayback)
    → new_native_playback lower has_prefix catalog names target_name simulated minimal_buffer
        target_latency
      ≡ created p
    → Steps p q
    → IsBounded q × ((now : ℤ) → (r : NativePlayback) × (advance now q ≡ some r))
session-IsBounded lower has_prefix catalog names target_name simulated minimal_buffer target_latency
      p q e steps =
    let made = rw (e) at (
      new_native_playback-Explains lower has_prefix catalog simulated names target_name
        minimal_buffer target_latency) in
    let (all, in_time, tip, tracks, empty, layered) = made in
    let bounded =
      Steps-IsBounded steps (record { layered = layered; few = omega (arith, ap length empty) }) in
    (bounded, λ now. let (r, runs, kept) = advance-IsLayered now q bounded.layered in (r, runs))
