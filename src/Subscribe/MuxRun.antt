-- ===== src/Subscribe/MuxRun.antt =====
-- What the multiplexer of internal/sub/mux.go writes over a run of calls, against a description of it.
use moqlivemock_svc.Base.{ℕ, Bool, Option, none, some, List, [], ◌∷◌, String, str_eq, if◌then◌else◌}
use moqlivemock_svc.Subscribe.Mux.{
  Segments, CmafMux, Call, returned, failed, panicked, add_init, mux_sample, fragment_of, track_id,
  decoded,
}

-- A call of the handler: the init data of a content type, or an object's payload of a media type.
pub data Op : Type 0 where
  init_op : String → String → Op
  sample_op : List ℕ → String → Op

module _ (s : Segments) where
  open s use {
    Init, Fragment, decode_init, init_with_id, time_scale, merge, encode_init, fragments_of,
    with_id, encode_fragment,
  }

  abbrev pub step : (List ℕ → Bool) → Op → CmafMux s → Call s
  step ok (init_op init_data content_type) m = add_init s ok init_data content_type m
  step ok (sample_op sample media_type) m = mux_sample s ok sample media_type m

  -- An error is logged by the caller; a panic ends the program.
  unfoldable pub run : (List ℕ → Bool) → List Op → CmafMux s → Option (CmafMux s)
  run ok [] m = some m
  run ok (op ∷ ops) m = elim (step ok op m) [
    | returned next ↦ run ok ops next
    | failed next ↦ run ok ops next
    | panicked ↦ none
  ]

  -- The init segment that a content type has, once `init_data` of `content_type` is added.
  unfoldable pub picked : String → String → String → Option Init → Option Init
  picked wanted init_data content_type (some init) = some init
  picked wanted init_data content_type none =
      if str_eq content_type wanted
      then elim (decode_init init_data) [
        | decoded init ↦ some (init_with_id (track_id wanted) init)
        | _ ↦ none
      ]
      else none

  unfoldable pub muxed_samples : List Op → List (List ℕ)
  muxed_samples [] = []
  muxed_samples (init_op init_data content_type ∷ ops) = muxed_samples ops
  muxed_samples (sample_op sample media_type ∷ ops) = elim (fragment_of s sample) [
    | none ↦ muxed_samples ops
    | some fragment ↦ encode_fragment (with_id (track_id media_type) fragment) ∷ muxed_samples ops
  ]

  -- Nothing until both init segments are there, then they merged, then every sample in its order.
  unfoldable pub expected : Option Init → Option Init → List Op → List (List ℕ)
  expected video audio [] = []
  expected video audio (sample_op sample media_type ∷ ops) = expected video audio ops
  expected video audio (init_op init_data content_type ∷ ops) =
      elim (picked "video" init_data content_type video) [
        | none ↦ expected none (picked "audio" init_data content_type audio) ops
        | some v ↦ elim (picked "audio" init_data content_type audio) [
          | none ↦ expected (some v) none ops
          | some a ↦ encode_init (merge v a) ∷ muxed_samples ops
        ]
      ]
