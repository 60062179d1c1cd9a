-- ===== src/Subscribe/MuxPlaying.antt =====
-- The multiplexer of internal/sub/mux.go once both init segments are merged.
use mathlib.Core.List.{append_assoc, append-nil}
use moqlivemock_svc.Base.{
  ℕ, Bool, true, false, ◌≡◌, refl, sym, ap, ◌∙◌, ◌⊎◌, inl, inr, Option, none, some, List, [], ◌∷◌,
  ◌++◌, String, Bool-cases, Option-cases, ◌==◌, ==_iff,
}
use moqlivemock_svc.Subscribe.Mux.{
  Segments, CmafMux, returned, failed, add_init, mux_init, mux_sample, mux_fragment, fragment_of,
  scale_of, value_at, track_id, decoded,
}
use moqlivemock_svc.Subscribe.MuxRun.{Op, init_op, sample_op, step, run, picked, muxed_samples}
use moqlivemock_svc.Subscribe.MuxStep.{added, Scaled, added-Scaled, add_init-cases}

-- A writer that takes everything.
abbrev pub takes_all : List ℕ → Bool
takes_all bytes = true

module _ (s : Segments) where
  open s use {
    Init, Fragment, decode_init, init_has_boxes, fragment_has_boxes, time_scale, merge, encode_init,
    with_id, encode_fragment,
  }

  -- An init segment with the boxes that the code reads, and a time scale other than 0.
  abbrev pub IsSound : Init → Type 0
  IsSound init = (¬ (time_scale init ≡ 0)) × (init_has_boxes init ≡ true)

  -- The init data that decode are sound, and the samples are of the video or the audio track and have
  -- their boxes, where they are one fragment.
  abbrev pub Sensible : List Op → Type 0
  Sensible [] = Unit
  Sensible (init_op init_data content_type ∷ ops) =
      ((init : Init) → decode_init init_data ≡ decoded init → IsSound init) × Sensible ops
  Sensible (sample_op sample media_type ∷ ops) =
      ((media_type ≡ "video") ⊎ (media_type ≡ "audio"))
      × ((fragment : Fragment)
          → fragment_of s sample ≡ some fragment
          → fragment_has_boxes fragment ≡ true)
      × Sensible ops

  abbrev pub Waiting : Option Init → Option Init → CmafMux s → Type 0
  Waiting video audio m =
      (value_at m.inits "video" ≡ video)
      × (value_at m.inits "audio" ≡ audio)
      × (m.muxed ≡ none)
      × (m.written ≡ [])
      × (Scaled s "video" m)
      × Scaled s "audio" m

  abbrev pub Playing : Init → Init → Init → CmafMux s → Type 0
  Playing video audio muxed m =
      (value_at m.inits "video" ≡ some video)
      × (value_at m.inits "audio" ≡ some audio)
      × (m.muxed ≡ some muxed)
      × (Scaled s "video" m)
      × Scaled s "audio" m

  abbrev pub Ends : List Op → CmafMux s → List (List ℕ) → Type 0
  Ends ops m bytes =
      (next : CmafMux s) × (run s takes_all ops m ≡ some next) × (next.written ≡ bytes)

  pub run-returned :
      (op : Op) (ops : List Op) (m next : CmafMux s)
      → step s takes_all op m ≡ returned next
      → run s takes_all (op ∷ ops) m ≡ run s takes_all ops next
  unfolding run
  run-returned op ops m next e = rw (run, e) refl

  pub run-failed :
      (op : Op) (ops : List Op) (m next : CmafMux s)
      → step s takes_all op m ≡ failed next
      → run s takes_all (op ∷ ops) m ≡ run s takes_all ops next
  unfolding run
  run-failed op ops m next e = rw (run, e) refl

  mux_init_again :
      (video audio muxed : Init) (m : CmafMux s)
      → value_at m.inits "video" ≡ some video
      → value_at m.inits "audio" ≡ some audio
      → m.muxed ≡ some muxed
      → mux_init s takes_all m ≡ failed m
  unfolding mux_init
  mux_init_again video audio muxed m v a i = simp (mux_init, v, a, i)

  -- With both init segments merged, further init data fail and write nothing.
  Playing-add_init :
      (init_data content_type : String) (video audio muxed : Init) (m : CmafMux s)
      → ((init : Init) → decode_init init_data ≡ decoded init → IsSound init)
      → Playing video audio muxed m
      → (next : CmafMux s) × (add_init s takes_all init_data content_type m ≡ failed next)
        × Playing video audio muxed next
        × (next.written ≡ m.written)
  unfolding mux_init picked
  Playing-add_init init_data content_type video audio muxed m scaled (v, a, i, sv, sa) =
      elim (add_init-cases s takes_all init_data content_type m) [
        | inl (e, same) ↦ (m, e, (v, a, i, sv, sa), refl)
        | inr (inl (init, e, lacks, called)) ↦ let (sound, has) = scaled init e in absurd (cc)
        | inr (inr (init, (e, called, values))) ↦
            let v' : value_at (added s content_type init m).inits "video" ≡ some video =
              values "video" ∙ rw (v, picked) refl in
            let a' : value_at (added s content_type init m).inits "audio" ≡ some audio =
              values "audio" ∙ rw (a, picked) refl in
            (
              added s content_type init m,
              called ∙ mux_init_again video audio muxed (added s content_type init m) v' a' i,
              (
                v',
                a',
                i,
                added-Scaled s content_type "video" init m (scaled init e).0 sv,
                added-Scaled s content_type "audio" init m (scaled init e).0 sa,
              ),
              refl,
            )
      ]

  Playing-scale_of :
      (media_type : String) (video audio muxed : Init) (m : CmafMux s)
      → ((media_type ≡ "video") ⊎ (media_type ≡ "audio"))
      → Playing video audio muxed m
      → (scale_of s m media_type == 0) ≡ false
  Playing-scale_of media_type video audio muxed m kind (v, a, i, sv, sa) =
      elim (Bool-cases (scale_of s m media_type == 0)) [
        | inr e ↦ e
        | inl e ↦
            let zero_scale = (==_iff (scale_of s m media_type) 0).0 e in
            elim kind [
              | inl k ↦ absurd (sv video v (rw (k) at zero_scale))
              | inr k ↦ absurd (sa audio a (rw (k) at zero_scale))
            ]
      ]

  pub Playing-run :
      (ops : List Op) (video audio muxed : Init) (m : CmafMux s)
      → Sensible ops
      → Playing video audio muxed m
      → Ends ops m (m.written ++ muxed_samples s ops)
  unfolding run muxed_samples mux_sample
  Playing-run [] video audio muxed m sound now = (m, refl, sym (append-nil m.written))
  Playing-run (init_op init_data content_type ∷ ops) video audio muxed m (scaled, sound) now =
      let (next, e, then_now, same) =
        Playing-add_init init_data content_type video audio muxed m scaled now in
      let (last, ends, bytes) = Playing-run ops video audio muxed next sound then_now in
      (
        last,
        run-failed (init_op init_data content_type) ops m next e ∙ ends,
        bytes ∙ ap (λ (w : List (List ℕ)). w ++ muxed_samples s ops) same,
      )
  Playing-run (sample_op sample media_type ∷ ops) video audio muxed m (kind, boxes, sound) now =
      let (v, a, i, sv, sa) = now in
      elim (Option-cases (fragment_of s sample)) [
        | inl e ↦
            let (last, ends, bytes) = Playing-run ops video audio muxed m sound now in
            (
              last,
              run-failed (sample_op sample media_type) ops m m (simp (mux_sample, i, e)) ∙ ends,
              rw (muxed_samples, e) bytes,
            )
        | inr (fragment, e) ↦
            let out = encode_fragment (with_id (track_id media_type) fragment) in
            let next = record m { written = m.written ++ out ∷ [] } in
            let scale = Playing-scale_of media_type video audio muxed m kind now in
            let (last, ends, bytes) = Playing-run ops video audio muxed next sound now in
            (
              last,
              run-returned (sample_op sample media_type) ops m next
                    (simp (mux_sample, i, e, mux_fragment, boxes fragment e, scale))
                  ∙ ends,
              rw (muxed_samples, e)
                  (bytes ∙ append_assoc m.written (out ∷ []) (muxed_samples s ops)),
            )
      ]
