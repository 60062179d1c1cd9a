-- ===== src/Subscribe/Moqmi.antt =====
-- The moq-mi subscriber of internal/sub/moqmi.go. The extension headers are read by the transport's
-- package moqmi, which `media_type` and `seq_id` stand for.
use moqlivemock_svc.Base.{
  ℕ, Bool, true, false, not, ◌||◌, ◌&&◌, Option, none, some, List, [], ◌∷◌, ◌++◌, String, str_eq,
  if◌then◌else◌,
}
use moqlivemock_svc.Base.Words.{sub_u64}
use moqlivemock_svc.Loc.Marking.{KeyValuePair}

-- `has_prefix` is that of package strings.
abbrev pub is_moqmi_namespace : (String → String → Bool) → List String → Bool
is_moqmi_namespace has_prefix [] = false
is_moqmi_namespace has_prefix (first ∷ rest) = str_eq first "moq-mi" || has_prefix first "moq-mi/"

-- The outputs that the handler has.
pub record Outputs : Type 0 where
  pub video_out : Bool
  pub audio_out : Bool
  pub mux_out : Bool

abbrev pub subscribe_if : Bool → (String → Bool) → String → String → List (String × String)
subscribe_if wanted subscribes track_name media_type =
    if wanted && subscribes track_name then (track_name, media_type) ∷ [] else []

-- The subscriptions of `handleMoqMI`; with none it closes the connection. `subscribes` says whether the
-- peer accepts a track.
abbrev pub handle_moqmi : (String → Bool) → Outputs → List (String × String)
handle_moqmi subscribes o =
    subscribe_if (o.video_out || not o.mux_out) subscribes "video0" "video"
    ++ subscribe_if (o.audio_out || not o.mux_out) subscribes "audio0" "audio"

pub record SeqState : Type 0 where
  pub last_seq : ℕ
  pub have_seq : Bool

unfoldable pub seq_delta : ℕ → SeqState → ℕ × SeqState
seq_delta seq s =
    if not s.have_seq
    then (0, record { last_seq = seq; have_seq = true })
    else (sub_u64 seq s.last_seq, record s { last_seq = seq })

pub data MediaType : Type 0 where
  video_h264 audio_aac audio_opus utf8_text unknown_type : MediaType

-- Whether the type's objects are counted.
abbrev pub is_counted : MediaType → Bool
is_counted utf8_text = false
is_counted unknown_type = false
is_counted _ = true

module _ (media_type : List KeyValuePair → Option MediaType)
    (seq_id : MediaType → List KeyValuePair → Option ℕ) where
  -- The gap that is logged, and the counter.
  unfoldable pub log_moqmi_object : List KeyValuePair → SeqState → Option ℕ × SeqState
  unfolding seq_delta
  log_moqmi_object headers s = elim (media_type headers) [
    | none ↦ (none, s)
    | some mt ↦ elim (is_counted mt) [
      | false ↦ (none, s)
      | true ↦ elim (seq_id mt headers) [
        | none ↦ (none, s)
        | some seq ↦ let (gap, next) = seq_delta seq s in (some gap, next)
      ]
    ]
  ]

  pub record MoqmiRead : Type 0 where
    pub gaps : List ℕ
    pub written : List (List ℕ)
    pub counter : SeqState

  abbrev pub add_gap : Option ℕ → MoqmiRead → MoqmiRead
  add_gap none r = r
  add_gap (some gap) r = record r { gaps = gap ∷ r.gaps }

  abbrev pub add_payload : List ℕ → MoqmiRead → MoqmiRead
  add_payload payload r = record r { written = payload ∷ r.written }

  -- The goroutine of `subscribeMoqMI` over the objects that it reads: what it logs and writes, and the
  -- counter at the end. It ends at a write that fails.
  unfoldable pub read_moqmi :
      Bool → (List ℕ → Bool) → SeqState → List (List KeyValuePair × List ℕ) → MoqmiRead
  unfolding log_moqmi_object
  read_moqmi has_out takes s [] = record { gaps = []; written = []; counter = s }
  read_moqmi has_out takes s ((headers, payload) ∷ objects) =
      let (gap, next) = log_moqmi_object headers s in
      let rest = read_moqmi has_out takes next objects in
      if not has_out
      then add_gap gap rest
      else (if takes payload
          then add_gap gap (add_payload payload rest)
          else add_gap gap (record { gaps = []; written = []; counter = next }))
