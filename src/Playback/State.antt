-- ===== src/Playback/State.antt =====
-- The state of `nativePlayback` in internal/sub/playback.go and its small operations.
-- Times are integers, nanoseconds since the Unix epoch, and durations are integers of nanoseconds;
-- a zero `time.Time` is `none`. A layer index that may be -1 (`active`, and the result of
-- `completePrefix`) is kept as the number of layers, the index plus one.
use moqlivemock_svc.Base.{
  ℕ, ◌+◌, ◌-◌, Bool, true, false, not, Option, none, some, List, String, leb, if◌then◌else◌,
}
use moqlivemock_svc.Base.Int.{ℤ, pos, ◌+ℤ◌, ◌-ℤ◌, ◌*ℤ◌}
use moqlivemock_svc.Base.Words.{i64_of_u64, wrap_i64}

pub record PlaybackTrack : Type 0 where
  pub name : String
  pub spatial_id : ℤ
  pub width : Option ℤ
  pub height : Option ℤ
  pub bitrate : ℤ

pub record PlaybackUnitKey : Type 0 where
  pub group : ℕ
  pub object : ℕ

pub record PlaybackLayer : Type 0 where
  pub timestamp_us : ℕ
  pub independent : Bool
  pub bytes : ℕ

-- The map from layer index to layer is a list of pairs with different indices.
pub record PlaybackUnit : Type 0 where
  pub key : PlaybackUnitKey
  pub layers : List (ℕ × PlaybackLayer)
  pub invalid_from : ℕ

pub record TimedBytes : Type 0 where
  pub at : ℤ
  pub bytes : ℕ

pub data PlayState : Type 0 where
  receiving starting buffering playing stalled : PlayState

pub data SwitchState : Type 0 where
  stable waiting_independent : SwitchState

-- `active` is the source's `p.active + 1`, and `pending` the values of its map. The mutex and the
-- wake channel are left out: an operation runs under the mutex from start to end.
pub record NativePlayback : Type 0 where
  pub tracks : List PlaybackTrack
  pub target : ℕ
  pub active : ℕ
  pub valid : List Bool
  pub pending : List PlaybackUnit
  pub simulated : Bool
  pub minimal_buffer : ℤ
  pub target_latency : ℤ
  pub state : PlayState
  pub switch_state : SwitchState
  pub started : Bool
  pub last_presented : Option ℕ
  pub last_presented_at : Option ℤ
  pub stall_started : Option ℤ
  pub stall_count : ℕ
  pub stall_duration : ℤ
  pub received : List TimedBytes
  pub played : List TimedBytes

abbrev pub is_stalled : PlayState → Bool
is_stalled stalled = true
is_stalled _ = false

unfoldable pub enter_stall : ℤ → NativePlayback → NativePlayback
enter_stall now p =
    if is_stalled p.state
    then p
    else record p { state = stalled; stall_count = p.stall_count + 1; stall_started = some now }

unfoldable pub leave_stall : ℤ → NativePlayback → NativePlayback
leave_stall now p = elim p.stall_started [
  | none ↦ p
  | some since ↦ record p {
    stall_duration = p.stall_duration +ℤ (now -ℤ since);
    stall_started = none;
  }
]

-- `time.UnixMicro(int64(us))`
abbrev pub unix_micro : ℕ → ℤ
unix_micro us = i64_of_u64 us *ℤ pos 1000

-- `time.Duration(us) * time.Microsecond`, which wraps as an int64
abbrev pub micros : ℕ → ℤ
micros us = wrap_i64 (i64_of_u64 us *ℤ pos 1000)

unfoldable pub presentation_deadline : NativePlayback → ℕ → ℤ
presentation_deadline p timestamp_us =
    let first = unix_micro timestamp_us +ℤ p.target_latency in
    if not p.started then first else elim p.last_presented [
      | none ↦ first
      | some previous ↦ elim p.last_presented_at [
        | none ↦ first
        | some presented_at ↦
            if leb timestamp_us previous
            then presented_at
            else presented_at +ℤ micros (timestamp_us - previous)
      ]
    ]
