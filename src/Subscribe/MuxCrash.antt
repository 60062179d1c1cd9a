-- ===== src/Subscribe/MuxCrash.antt =====
-- When the multiplexer of internal/sub/mux.go panics.
use moqlivemock_svc.Base.{
  ℕ, Bool, not, ◌||◌, arith, ◌≡◌, refl, sym, ◌∙◌, ◌⊎◌, inl, inr, Option, none, some, List, [], ◌∷◌,
  String, str_eq, eq_iff, Bool-cases, Option-cases, ◌==◌, ◌≢◌, ◌↔◌,
}
use moqlivemock_svc.Subscribe.Mux.{
  Segments, CmafMux, Call, returned, failed, panicked, new_mux, add_init, mux_init, mux_sample,
  mux_fragment, fragment_of, scale_of, value_at, write,
}
use moqlivemock_svc.Subscribe.MuxRun.{Op, init_op, sample_op, step, run}
use moqlivemock_svc.Subscribe.MuxStep.{added, add_init-cases}

-- Init data are added for the video and the audio track alone, as the handler does.
abbrev pub TwoTracks : List Op → Type 0
TwoTracks [] = Unit
TwoTracks (init_op init_data content_type ∷ ops) =
    ((content_type ≡ "video") ⊎ (content_type ≡ "audio")) × TwoTracks ops
TwoTracks (sample_op sample media_type ∷ ops) = TwoTracks ops

module _ (s : Segments) (ok : List ℕ → Bool) (media_type : String) where
  abbrev Unscaled : CmafMux s → Type 0
  Unscaled m = value_at m.time_scales media_type ≡ none

  abbrev LeavesUnscaled : Call s → Type 0
  LeavesUnscaled (returned m) = Unscaled m
  LeavesUnscaled (failed m) = Unscaled m
  LeavesUnscaled panicked = Unit

  write-Unscaled :
      (bytes : List ℕ) (m : CmafMux s) → Unscaled m → LeavesUnscaled (write s ok bytes m)
  write-Unscaled bytes m h = elim (Bool-cases (ok bytes)) [
    | inl e ↦ rw (LeavesUnscaled, write, e) h
    | inr e ↦ rw (LeavesUnscaled, write, e) h
  ]

  mux_init-Unscaled : (m : CmafMux s) → Unscaled m → LeavesUnscaled (mux_init s ok m)
  unfolding mux_init
  mux_init-Unscaled m h = elim (Option-cases (value_at m.inits "video")) [
    | inl v ↦ rw (LeavesUnscaled, mux_init, v) h
    | inr (video, v) ↦ elim (Option-cases (value_at m.inits "audio")) [
      | inl a ↦ rw (LeavesUnscaled, mux_init, v, a) h
      | inr (audio, a) ↦ elim (Option-cases m.muxed) [
        | inr (i, e) ↦ rw (LeavesUnscaled, mux_init, v, a, e) h
        | inl e ↦ rw (mux_init, v, a, e) (write-Unscaled _ _ h)
      ]
    ]
  ]

  add_init-Unscaled :
      (init_data content_type : String) (m : CmafMux s)
      → (content_type ≡ "video") ⊎ (content_type ≡ "audio")
      → media_type ≢ "video"
      → media_type ≢ "audio"
      → Unscaled m
      → LeavesUnscaled (add_init s ok init_data content_type m)
  unfolding value_at
  add_init-Unscaled init_data content_type m kind not_video not_audio h =
      elim (add_init-cases s ok init_data content_type m) [
        | inl (e, same) ↦ rw (e) h
        | inr (inl (init, e, lacks, called)) ↦ rw (called) tt
        | inr (inr (init, (e, called, values))) ↦
            elim (Bool-cases (str_eq content_type media_type)) [
              | inl same ↦
                  let at = (eq_iff content_type media_type).0 same in
                  elim kind [
                    | inl k ↦ absurd (not_video (sym at ∙ k))
                    | inr k ↦ absurd (not_audio (sym at ∙ k))
                  ]
              | inr other ↦
                  rw (called)
                    (mux_init-Unscaled (added s content_type init m) (rw (value_at, other) h))
            ]
      ]

  mux_sample-Unscaled :
      (sample : List ℕ) (kind : String) (m : CmafMux s)
      → Unscaled m
      → LeavesUnscaled (mux_sample s ok sample kind m)
  unfolding mux_sample
  mux_sample-Unscaled sample kind m h = elim (Option-cases m.muxed) [
    | inl e ↦ rw (LeavesUnscaled, mux_sample, e) h
    | inr (i, e) ↦ elim (Option-cases (fragment_of s sample)) [
      | inl f ↦ rw (LeavesUnscaled, mux_sample, e, f) h
      | inr (fragment, f) ↦
          elim (Bool-cases (not (s.fragment_has_boxes fragment) || scale_of s m kind == 0)) [
            | inl z ↦ rw (LeavesUnscaled, mux_sample, e, f, mux_fragment, z) tt
            | inr z ↦ rw (mux_sample, e, f, mux_fragment, z) (write-Unscaled _ m h)
          ]
    ]
  ]

  step-Unscaled :
      (op : Op) (ops : List Op) (m : CmafMux s)
      → TwoTracks (op ∷ ops)
      → media_type ≢ "video"
      → media_type ≢ "audio"
      → Unscaled m
      → LeavesUnscaled (step s ok op m) × TwoTracks ops
  step-Unscaled (init_op init_data content_type) ops m (kind, only) not_video not_audio h =
      (add_init-Unscaled init_data content_type m kind not_video not_audio h, only)
  step-Unscaled (sample_op sample kind) ops m only not_video not_audio h =
      (mux_sample-Unscaled sample kind m h, only)

  Call-cases :
      (c : Call s)
      → ((m : CmafMux s) × (c ≡ returned m)) ⊎ (((m : CmafMux s) × (c ≡ failed m)) ⊎ (c ≡ panicked))
  Call-cases (returned m) = inl (m, refl)
  Call-cases (failed m) = inr (inl (m, refl))
  Call-cases panicked = inr (inr refl)

  run-Unscaled :
      (ops : List Op) (m last : CmafMux s)
      → TwoTracks ops
      → media_type ≢ "video"
      → media_type ≢ "audio"
      → Unscaled m
      → run s ok ops m ≡ some last
      → Unscaled last
  unfolding run
  run-Unscaled [] m last only not_video not_audio h e = elim (Option-cases (run s ok [] m)) [
    | inl n ↦ absurd (cc)
    | inr (x, n) ↦ let same : m ≡ last = cc in rw (← same) h
  ]
  run-Unscaled (op ∷ ops) m last only not_video not_audio h e =
      let (kept, only_rest) = step-Unscaled op ops m only not_video not_audio h in
      elim (Call-cases (step s ok op m)) [
        | inl (next, c) ↦
            run-Unscaled ops next last only_rest not_video not_audio (rw (c) at kept)
              (rw (run, c) at e)
        | inr (inl (next, c)) ↦
            run-Unscaled ops next last only_rest not_video not_audio (rw (c) at kept)
              (rw (run, c) at e)
        | inr (inr c) ↦
            let ends : ◌≡◌ {A = Option (CmafMux s)} none (some last) = rw (run, c) at e in
            absurd (cc)
      ]

  -- After any calls, with init data for the video and the audio track alone, and with any writer: a
  -- sample whose media type is neither video nor audio makes the multiplexer panic exactly when both
  -- init segments are merged and the sample is one fragment.
  pub mux_sample-panics :
      (ops : List Op) (last : CmafMux s)
      → TwoTracks ops
      → media_type ≢ "video"
      → media_type ≢ "audio"
      → run s ok ops (new_mux s) ≡ some last
      → (sample : List ℕ)
      → (mux_sample s ok sample media_type last ≡ panicked)
        ↔ ((¬ (last.muxed ≡ none)) × (¬ (fragment_of s sample ≡ none)))
  unfolding mux_sample value_at
  mux_sample-panics ops last only not_video not_audio e sample =
      let unscaled = run-Unscaled ops (new_mux s) last only not_video not_audio refl e in
      elim (Option-cases last.muxed) [
        | inl i ↦ ((λ p. let q = rw (mux_sample, i) at p in absurd (cc)), (λ p. absurd (p.0 i)))
        | inr (init, i) ↦ elim (Option-cases (fragment_of s sample)) [
          | inl f ↦
              ((λ p. let q = rw (mux_sample, i, f) at p in absurd (cc)), (λ p. absurd (p.1 f)))
          | inr (fragment, f) ↦ (
            (λ p. ((λ n. absurd (cc)), (λ n. absurd (cc)))),
            (λ p. rw (mux_sample, i, f, mux_fragment, scale_of, unscaled) (ground arith)),
          )
        ]
      ]
