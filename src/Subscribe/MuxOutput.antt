-- ===== src/Subscribe/MuxOutput.antt =====
-- The runs of the multiplexer of internal/sub/mux.go against their description.
use moqlivemock_svc.Base.{
  ℕ, ◌≡◌, refl, sym, ap, ◌∙◌, ◌⊎◌, inl, inr, Option, none, some, List, [], ◌∷◌, ◌++◌, String,
  Option-cases,
}
use moqlivemock_svc.Subscribe.Mux.{
  Segments, CmafMux, returned, new_mux, mux_init, mux_sample, value_at,
}
use moqlivemock_svc.Subscribe.MuxRun.{Op, init_op, sample_op, run, picked, muxed_samples, expected}
use moqlivemock_svc.Subscribe.MuxStep.{added, added-Scaled, add_init-cases}
use moqlivemock_svc.Subscribe.MuxPlaying.{
  takes_all, Sensible, Waiting, Ends, run-returned, run-failed, Playing-run,
}

module _ (s : Segments) where
  open s use {Init, Fragment, decode_init, time_scale, merge, encode_init, with_id, encode_fragment}

  -- The first init segments, and what `mux_init` makes of them.
  mux_init_incomplete :
      (m : CmafMux s)
      → (value_at m.inits "video" ≡ none) ⊎ (value_at m.inits "audio" ≡ none)
      → mux_init s takes_all m ≡ returned m
  unfolding mux_init
  mux_init_incomplete m (inl e) = simp (mux_init, e)
  mux_init_incomplete m (inr e) = elim (Option-cases (value_at m.inits "video")) [
    | inl v ↦ simp (mux_init, v)
    | inr (video, v) ↦ simp (mux_init, v, e)
  ]

  mux_init_complete :
      (video audio : Init) (m : CmafMux s)
      → value_at m.inits "video" ≡ some video
      → value_at m.inits "audio" ≡ some audio
      → m.muxed ≡ none
      → mux_init s takes_all m
        ≡ returned (record m {
          muxed = some (merge video audio);
          written = m.written ++ encode_init (merge video audio) ∷ [];
        })
  unfolding mux_init
  mux_init_complete video audio m v a i = simp (mux_init, v, a, i)

  -- What is left to write of a run, of the segments that there are now.
  left_over : Option Init → Option Init → List Op → List (List ℕ)
  unfolding expected
  left_over none audio ops = expected s none audio ops
  left_over (some video) none ops = expected s (some video) none ops
  left_over (some video) (some audio) ops = encode_init (merge video audio) ∷ muxed_samples s ops

  expected-init :
      (video audio : Option Init) (init_data content_type : String) (ops : List Op)
      → expected s video audio (init_op init_data content_type ∷ ops)
        ≡ left_over
            (picked s "video" init_data content_type video)
            (picked s "audio" init_data content_type audio)
            ops
  unfolding expected left_over
  expected-init video audio init_data content_type ops =
      elim (Option-cases (picked s "video" init_data content_type video)) [
        | inl v ↦ rw (expected, v) refl
        | inr (i, v) ↦ elim (Option-cases (picked s "audio" init_data content_type audio)) [
          | inl a ↦ rw (expected, v, a) refl
          | inr (j, a) ↦ rw (expected, v, a) refl
        ]
      ]

  left_over-lacks :
      (video audio : Option Init) (ops : List Op)
      → (video ≡ none) ⊎ (audio ≡ none)
      → left_over video audio ops ≡ expected s video audio ops
  unfolding left_over
  left_over-lacks none audio ops lacks = refl
  left_over-lacks (some video) none ops lacks = refl
  left_over-lacks (some video) (some audio) ops (inl e) = absurd (cc)
  left_over-lacks (some video) (some audio) ops (inr e) = absurd (cc)

  -- From a call of `mux_init` on, where the rest of the run is right as long as a segment lacks.
  resumed :
      (ops : List Op)
      → Sensible s ops
      → ((v a : Option Init) (m : CmafMux s)
          → (v ≡ none) ⊎ (a ≡ none)
          → Waiting s v a m
          → Ends s ops m (expected s v a ops))
      → (v a : Option Init) (m : CmafMux s) → Waiting s v a m
      → (next : CmafMux s) × (mux_init s takes_all m ≡ returned next)
        × Ends s ops next (left_over v a ops)
  unfolding left_over
  resumed ops sound later none a m (ve, ae, i, w, sv, sa) =
      (m, mux_init_incomplete m (inl ve), later none a m (inl refl) (ve, ae, i, w, sv, sa))
  resumed ops sound later (some v) none m (ve, ae, i, w, sv, sa) =
      (m, mux_init_incomplete m (inr ae), later (some v) none m (inr refl) (ve, ae, i, w, sv, sa))
  resumed ops sound later (some v) (some a) m (ve, ae, i, w, sv, sa) =
      let next = record m {
        muxed = some (merge v a);
        written = m.written ++ encode_init (merge v a) ∷ [];
      } in
      let (last, ends, bytes) =
        Playing-run s ops v a (merge v a) next sound (ve, ae, refl, sv, sa) in
      (
        next,
        mux_init_complete v a m ve ae i,
        (
          last,
          ends,
          bytes
              ∙ ap
                  (λ (l : List (List ℕ)).
                    (l ++ encode_init (merge v a) ∷ []) ++ muxed_samples s ops)
                  w,
        ),
      )

  Waiting-run :
      (ops : List Op)
      → Sensible s ops
      → (v a : Option Init) (m : CmafMux s) → (v ≡ none) ⊎ (a ≡ none)
      → Waiting s v a m
      → Ends s ops m (expected s v a ops)
  unfolding run expected mux_sample
  Waiting-run [] sound v a m lacks (ve, ae, i, w, sv, sa) = (m, refl, w)
  Waiting-run (sample_op sample media_type ∷ ops) (kind, boxes, sound) v a m lacks
        (ve, ae, i, w, sv, sa) =
      let (last, ends, bytes) = Waiting-run ops sound v a m lacks (ve, ae, i, w, sv, sa) in
      (
        last,
        run-returned s (sample_op sample media_type) ops m m (simp (mux_sample, i)) ∙ ends,
        bytes,
      )
  Waiting-run (init_op init_data content_type ∷ ops) (scaled, sound) v a m lacks
        (ve, ae, i, w, sv, sa) =
      elim (add_init-cases s takes_all init_data content_type m) [
        | inl (e, same) ↦
            let (last, ends, bytes) = Waiting-run ops sound v a m lacks (ve, ae, i, w, sv, sa) in
            (
              last,
              run-failed s (init_op init_data content_type) ops m m e ∙ ends,
              bytes
                  ∙ sym (
                      expected-init v a init_data content_type ops
                      ∙ rw (rw (ve) at (same "video"), rw (ae) at (same "audio"))
                          (left_over-lacks v a ops lacks)),
            )
        | inr (inl (init, e, lacks, called)) ↦ let (well, has) = scaled init e in absurd (cc)
        | inr (inr (init, (e, called, values))) ↦
            let (next, called', (last, ends, bytes)) =
              resumed ops sound (Waiting-run ops sound) (picked s "video" init_data content_type v)
                (picked s "audio" init_data content_type a) (added s content_type init m)
                (
                  values "video" ∙ ap (picked s "video" init_data content_type) ve,
                  values "audio" ∙ ap (picked s "audio" init_data content_type) ae,
                  i,
                  w,
                  added-Scaled s content_type "video" init m (scaled init e).0 sv,
                  added-Scaled s content_type "audio" init m (scaled init e).0 sa,
                ) in
            (
              last,
              run-returned s (init_op init_data content_type) ops m next (called ∙ called') ∙ ends,
              bytes ∙ sym (expected-init v a init_data content_type ops),
            )
      ]

  -- Over calls whose init data that decode have the boxes that the code reads and a time scale other
  -- than 0, and whose samples are of the video or the audio track and have their boxes, with a writer
  -- that takes every write: the multiplexer does not panic, and writes nothing until both tracks have an
  -- init segment, then the two merged, once, and from then on each sample that is one fragment, with its
  -- track's id, in the order of the calls. Init data that come twice, or after that, write nothing, and
  -- neither does a sample that is not one fragment.
  pub run-expected :
      (ops : List Op)
      → Sensible s ops
      → (last : CmafMux s) × (run s takes_all ops (new_mux s) ≡ some last)
        × (last.written ≡ expected s none none ops)
  unfolding value_at
  run-expected ops sound =
      Waiting-run ops sound none none (new_mux s) (inl refl)
        (refl, refl, refl, refl, (λ init e. absurd (cc)), (λ init e. absurd (cc)))
