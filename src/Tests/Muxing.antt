-- ===== src/Tests/Muxing.antt =====
-- A multiplexer of one video and one audio track.
use moqlivemock_svc.Base.{
  ℕ, true, ◌≡◌, ◌≢◌, ◌↔◌, refl, inl, inr, none, some, List, [], ◌∷◌, ◌++◌, String, str_eq,
  if◌then◌else◌,
}
use moqlivemock_svc.Subscribe.Mux.{
  Segments, CmafMux, panicked, new_mux, mux_sample, mux_init, add_init, value_at, fragment_of,
  undecodable, decoded,
}
use moqlivemock_svc.Subscribe.MuxRun.{Op, init_op, sample_op, run, expected, picked, muxed_samples}
use moqlivemock_svc.Subscribe.MuxPlaying.{takes_all, IsSound, Sensible}
use moqlivemock_svc.Subscribe.MuxOutput.{run-expected}
use moqlivemock_svc.Subscribe.MuxCrash.{mux_sample-panics}

-- Init data are the text "init"; a fragment is its one byte, behind its track's id once it is muxed.
abbrev segments : Segments
segments = record {
  Init = List ℕ;
  Fragment = List ℕ;
  decode_init = λ text. if str_eq text "init" then decoded (7 ∷ []) else undecodable;
  init_has_boxes = λ init. true;
  init_with_id = λ id init. id ∷ init;
  time_scale = λ init. 90000;
  merge = λ video audio. video ++ audio;
  encode_init = λ init. init;
  fragments_of = λ sample. some ((sample ∷ []) ∷ []);
  fragment_has_boxes = λ fragment. true;
  with_id = λ id fragment. id ∷ fragment;
  encode_fragment = λ fragment. fragment;
}

abbrev ops : List Op
ops =
    sample_op (9 ∷ []) "video"
    ∷ init_op "init" "video"
    ∷ init_op "none" "audio"
    ∷ init_op "init" "audio"
    ∷ sample_op (5 ∷ []) "audio"
    ∷ sample_op (6 ∷ []) "video"
    ∷ []

sound :
    (text : String) (init : List ℕ)
    → segments.decode_init text ≡ decoded init
    → IsSound segments init
sound text init e = ((λ z. absurd (cc)), refl)

sensible : Sensible segments ops
sensible = (
  inl refl,
  (λ fragment e. refl),
  (
    sound "init",
    (
      sound "none",
      (sound "init", (inr refl, (λ fragment e. refl), (inl refl, (λ fragment e. refl), tt))),
    ),
  ),
)

test_output :
    expected segments none none ops ≡ (1 ∷ 7 ∷ 2 ∷ 7 ∷ []) ∷ (2 ∷ 5 ∷ []) ∷ (1 ∷ 6 ∷ []) ∷ []
unfolding expected picked muxed_samples
test_output = refl

run-expected_example :
    (last : CmafMux segments) × (run segments takes_all ops (new_mux segments) ≡ some last)
    × (last.written ≡ expected segments none none ops)
run-expected_example = run-expected segments ops sensible

abbrev muxed : CmafMux segments
muxed = record {
  muxed = some (1 ∷ 7 ∷ 2 ∷ 7 ∷ []);
  inits = ("audio", 2 ∷ 7 ∷ []) ∷ ("video", 1 ∷ 7 ∷ []) ∷ [];
  time_scales = ("audio", 90000) ∷ ("video", 90000) ∷ [];
  written = (1 ∷ 7 ∷ 2 ∷ 7 ∷ []) ∷ (2 ∷ 5 ∷ []) ∷ (1 ∷ 6 ∷ []) ∷ [];
}

muxed_run : run segments takes_all ops (new_mux segments) ≡ some muxed
unfolding run add_init mux_init mux_sample value_at
muxed_run = refl

abbrev subs : String
subs = "subs"

not_video : subs ≢ "video"
not_video e = absurd (cc)

not_audio : subs ≢ "audio"
not_audio e = absurd (cc)

mux_sample-panics_example :
    (mux_sample segments takes_all (8 ∷ []) subs muxed ≡ panicked)
    ↔ ((¬ (muxed.muxed ≡ none)) × (¬ (fragment_of segments (8 ∷ []) ≡ none)))
mux_sample-panics_example =
    mux_sample-panics segments takes_all subs ops muxed (inl refl, (inr refl, (inr refl, tt)))
      not_video not_audio muxed_run (8 ∷ [])

test_panics : mux_sample segments takes_all (8 ∷ []) subs muxed ≡ panicked
unfolding mux_sample value_at
test_panics = refl
