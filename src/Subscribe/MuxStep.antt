-- ===== src/Subscribe/MuxStep.antt =====
-- What one call does to the multiplexer of internal/sub/mux.go, for the theorems on its runs.
use moqlivemock_svc.Base.{
  ℕ, Bool, false, ◌≡◌, refl, ◌⊎◌, inl, inr, Option, none, some, List, ◌∷◌, String, str_eq, eq_iff,
  Bool-cases, Option-cases,
}
use mathlib.Core.Path.{subst}
use moqlivemock_svc.Subscribe.Mux.{
  Segments, CmafMux, Call, failed, panicked, add_init, mux_init, scale_of, value_at, track_id,
  Decoded, undecodable, missing, decoded,
}
use moqlivemock_svc.Subscribe.MuxRun.{picked}
use moqlivemock_svc.Catalog.Walk.{str_eq_refl}

pub Decoded-cases :
    {A : Type 0} (d : Decoded A) → ((d ≡ undecodable) ⊎ (d ≡ missing)) ⊎ ((a : A) × (d ≡ decoded a))
Decoded-cases undecodable = inl (inl refl)
Decoded-cases missing = inl (inr refl)
Decoded-cases (decoded a) = inr (a, refl)

module _ (s : Segments) where
  open s use {Init, decode_init, init_has_boxes, init_with_id, time_scale}

  abbrev pub added : String → Init → CmafMux s → CmafMux s
  added content_type init m = record m {
    inits = (content_type, init_with_id (track_id content_type) init) ∷ m.inits;
    time_scales = (content_type, time_scale init) ∷ m.time_scales;
  }

  -- A content type with an init segment has a time scale other than 0.
  abbrev pub Scaled : String → CmafMux s → Type 0
  Scaled wanted m =
      (init : Init) → value_at m.inits wanted ≡ some init → ¬ (scale_of s m wanted ≡ 0)

  added-value :
      (init_data content_type wanted : String) (init : Init) (m : CmafMux s)
      → value_at m.inits content_type ≡ none
      → decode_init init_data ≡ decoded init
      → value_at (added content_type init m).inits wanted
        ≡ picked s wanted init_data content_type (value_at m.inits wanted)
  unfolding value_at picked
  added-value init_data content_type wanted init m fresh e =
      elim (Bool-cases (str_eq content_type wanted)) [
        | inl same ↦
            let at = (eq_iff content_type wanted).0 same in
            subst
              (λ w.
                value_at (added content_type init m).inits w
                ≡ picked s w init_data content_type (value_at m.inits w))
              at
              (rw (value_at, str_eq_refl content_type, fresh, picked, str_eq_refl content_type, e)
                refl)
        | inr other ↦ elim (Option-cases (value_at m.inits wanted)) [
          | inl absent ↦ rw (value_at, other, absent, picked, other) refl
          | inr (j, present) ↦ rw (value_at, other, present, picked) refl
        ]
      ]

  pub added-Scaled :
      (content_type wanted : String) (init : Init) (m : CmafMux s)
      → ¬ (time_scale init ≡ 0)
      → Scaled wanted m
      → Scaled wanted (added content_type init m)
  unfolding value_at
  added-Scaled content_type wanted init m sound scaled j at =
      elim (Bool-cases (str_eq content_type wanted)) [
        | inl same ↦ rw (scale_of, value_at, same) sound
        | inr other ↦ rw (scale_of, value_at, other) (scaled j (rw (value_at, other) at at))
      ]

  -- Init data that is not taken: the call fails, changes nothing, and gives no content type a segment.
  abbrev pub Refused : String → String → CmafMux s → Call s → Type 0
  Refused init_data content_type m call =
      (call ≡ failed m)
      × ((wanted : String)
          → picked s wanted init_data content_type (value_at m.inits wanted)
            ≡ value_at m.inits wanted)

  picked-present :
      (init_data content_type wanted : String) (m : CmafMux s) (j : Init)
      → value_at m.inits content_type ≡ some j
      → picked s wanted init_data content_type (value_at m.inits wanted) ≡ value_at m.inits wanted
  unfolding picked
  picked-present init_data content_type wanted m j present =
      elim (Option-cases (value_at m.inits wanted)) [
        | inl absent ↦ elim (Bool-cases (str_eq content_type wanted)) [
          | inl same ↦ let at = (eq_iff content_type wanted).0 same in absurd (cc)
          | inr other ↦ rw (absent, picked, other) refl
        ]
        | inr (i, there) ↦ rw (there, picked) refl
      ]

  picked-undecoded :
      (init_data content_type wanted : String) (o : Option Init)
      → (decode_init init_data ≡ undecodable) ⊎ (decode_init init_data ≡ missing)
      → picked s wanted init_data content_type o ≡ o
  unfolding picked
  picked-undecoded init_data content_type wanted (some init) h = refl
  picked-undecoded init_data content_type wanted none h =
      elim (Bool-cases (str_eq content_type wanted)) [
        | inr other ↦ rw (picked, other) refl
        | inl same ↦ elim h [
          | inl e ↦ rw (picked, same, e) refl
          | inr e ↦ rw (picked, same, e) refl
        ]
      ]

  module _ (ok : List ℕ → Bool) where
    pub add_init-cases :
        (init_data content_type : String) (m : CmafMux s)
        → Refused init_data content_type m (add_init s ok init_data content_type m)
          ⊎ (((init : Init) × (decode_init init_data ≡ decoded init)
                × (init_has_boxes init ≡ false)
                × (add_init s ok init_data content_type m ≡ panicked))
              ⊎ ((init : Init) × ((decode_init init_data ≡ decoded init)
                    × (add_init s ok init_data content_type m
                        ≡ mux_init s ok (added content_type init m))
                    × ((wanted : String)
                        → value_at (added content_type init m).inits wanted
                          ≡ picked s wanted init_data content_type (value_at m.inits wanted)))))
    unfolding add_init
    add_init-cases init_data content_type m = elim (Option-cases (value_at m.inits content_type)) [
      | inr (j, present) ↦ inl (
        rw (add_init, present) refl,
        λ wanted. picked-present init_data content_type wanted m j present,
      )
      | inl fresh ↦ elim (Decoded-cases (decode_init init_data)) [
        | inl (inl e) ↦ inl (
          rw (add_init, fresh, e) refl,
          λ wanted. picked-undecoded init_data content_type wanted _ (inl e),
        )
        | inl (inr e) ↦ inl (
          rw (add_init, fresh, e) refl,
          λ wanted. picked-undecoded init_data content_type wanted _ (inr e),
        )
        | inr (init, e) ↦ elim (Bool-cases (init_has_boxes init)) [
          | inr lacks ↦ inr (inl (init, e, lacks, rw (add_init, fresh, e, lacks) refl))
          | inl has ↦ inr (
              inr (
                init,
                (
                  e,
                  rw (add_init, fresh, e, has) refl,
                  λ wanted. added-value init_data content_type wanted init m fresh e,
                ),
              ))
        ]
      ]
    ]
