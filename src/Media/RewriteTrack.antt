-- ===== src/Media/RewriteTrack.antt =====
-- All samples of a track after `initHEVCData` of internal/media.go.
use mathlib.Core.List.{append_assoc, append-nil}
use moqlivemock_svc.Base.{
  ℕ, zero, suc, ◌≡◌, refl, sym, ap, ◌∙◌, ◌⊎◌, inl, inr, List, [], ◌∷◌, ◌++◌, length, take, set,
  arith, length-append, Bool, Bool-cases, Option, Option-cases, none, some, String, get_elem?, ◌==◌,
  ◌||◌,
}
use moqlivemock_svc.Nal.Frame.{write_nalus}
use moqlivemock_svc.Media.Rewrite.{
  NaluKind, Nalu, Ended, done, failed, panicked, out_of_fuel, Rewriting, Rewritten, rewrite_loop,
  new_rewriting, with_sample, rewrite_samples,
}
use moqlivemock_svc.Asset.Types.{HevcData}
use moqlivemock_svc.Media.VideoInit.{shown, from_hvcc, hevc_described, init_hevc_data}
use moqlivemock_svc.Media.Framed.{IsFramed, parse_nalus-IsFramed}
use moqlivemock_svc.Media.RewriteKept.{kept_nalus, Agrees, rewrite_loop-Agrees}

set_at :
    {A : Type 0} (front : List A) (x y : A) (rest : List A) (i : ℕ)
    → length front ≡ i
    → set (front ++ x ∷ rest) i y ≡ front ++ y ∷ rest
set_at [] x y rest zero e = refl
set_at [] x y rest (suc i) e = absurd (omega (arith, e))
set_at (z ∷ front) x y rest zero e = absurd (omega (arith, e))
set_at {A} (z ∷ front) x y rest (suc i) e =
    ap (λ (l : List A). z ∷ l) (set_at front x y rest i (omega (arith, e)))

module _ (get_nalu_type : ℕ → NaluKind) where
  -- Each sample is units with their lengths, and the front of its buffer, as long as its `Data`, is the units that
  -- are kept.
  abbrev pub AllKept : List (List ℕ) → List (List ℕ) → List ℕ → Type 0
  AllKept [] [] [] = Unit
  AllKept (sample ∷ samples) (buffer ∷ buffers) (len ∷ lengths) =
      ((nalus : List (List ℕ)) × IsFramed nalus sample
        × (take len buffer ≡ write_nalus (kept_nalus get_nalu_type nalus)))
      × AllKept samples buffers lengths
  AllKept _ _ _ = ⊥

  abbrev TrackKept :
      List (List ℕ) → List ℕ → List (List ℕ) → Ended (Rewritten get_nalu_type) → Type 0
  TrackKept front lens samples (done t) =
      (buffers : List (List ℕ)) × (lengths : List ℕ) × (t.buffers ≡ front ++ buffers)
      × (t.lengths ≡ lens ++ lengths)
      × AllKept samples buffers lengths
  TrackKept front lens samples failed = Unit
  TrackKept front lens samples panicked = Unit
  TrackKept front lens samples out_of_fuel = ⊥

  Ended-cases :
      (r : Ended Rewriting)
      → ((s : Rewriting) × (r ≡ done s)) ⊎ ((r ≡ failed) ⊎ ((r ≡ panicked) ⊎ (r ≡ out_of_fuel)))
  Ended-cases (done s) = inl (s, refl)
  Ended-cases failed = inr (inl refl)
  Ended-cases panicked = inr (inr (inl refl))
  Ended-cases out_of_fuel = inr (inr (inr refl))

  Agrees-done :
      (parse : Ended (List (List ℕ))) (s : Rewriting)
      → Agrees get_nalu_type [] parse (done s)
      → (nalus : List (List ℕ)) × (parse ≡ done nalus)
        × (take s.written s.buffer ≡ write_nalus (kept_nalus get_nalu_type nalus))
  Agrees-done (done nalus) s h = (nalus, refl, h)
  Agrees-done failed s h = absurd h
  Agrees-done panicked s h = absurd h
  Agrees-done out_of_fuel s h = absurd h

  Agrees-fuel : (parse : Ended (List (List ℕ))) → Agrees get_nalu_type [] parse out_of_fuel → ⊥
  Agrees-fuel (done nalus) h = h
  Agrees-fuel failed h = h
  Agrees-fuel panicked h = h
  Agrees-fuel out_of_fuel h = h

  TrackKept-cons :
      (front : List (List ℕ)) (lens : List ℕ) (sample buffer : List ℕ) (len : ℕ)
      (samples : List (List ℕ)) (r : Ended (Rewritten get_nalu_type))
      → ((nalus : List (List ℕ)) × IsFramed nalus sample
          × (take len buffer ≡ write_nalus (kept_nalus get_nalu_type nalus)))
      → TrackKept (front ++ buffer ∷ []) (lens ++ len ∷ []) samples r
      → TrackKept front lens (sample ∷ samples) r
  TrackKept-cons front lens sample buffer len samples (done t) one (buffers, lengths, bs, ns, all) =
      (
        buffer ∷ buffers,
        len ∷ lengths,
        bs ∙ append_assoc front (buffer ∷ []) buffers,
        ns ∙ append_assoc lens (len ∷ []) lengths,
        (one, all),
      )
  TrackKept-cons front lens sample buffer len samples failed one h = tt
  TrackKept-cons front lens sample buffer len samples panicked one h = tt
  TrackKept-cons front lens sample buffer len samples out_of_fuel one h = h

  rewrite_samples-TrackKept :
      (i : ℕ) (samples front : List (List ℕ)) (t : Rewritten get_nalu_type)
      → t.buffers ≡ front ++ samples
      → length front ≡ i
      → TrackKept front t.lengths samples (rewrite_samples get_nalu_type i samples t)
  unfolding rewrite_samples
  rewrite_samples-TrackKept i [] front t at here = ([], [], at, sym (append-nil t.lengths), tt)
  rewrite_samples-TrackKept i (sample ∷ samples) front t at here =
      let call =
        rewrite_loop get_nalu_type t.buffers i (suc (length sample)) 0
          (new_rewriting get_nalu_type sample t) in
      let agrees = rewrite_loop-Agrees get_nalu_type i sample t in
      elim (Ended-cases call) [
        | inr (inl e) ↦ rw (rewrite_samples, e) tt
        | inr (inr (inl e)) ↦ rw (rewrite_samples, e) tt
        | inr (inr (inr e)) ↦ absurd (Agrees-fuel _ (rw (e) at agrees))
        | inl (s, e) ↦
            let (nalus, parsed, kept) = Agrees-done _ s (rw (e) at agrees) in
            let framed = parse_nalus-IsFramed (suc (length sample)) sample nalus parsed in
            let buffers : set t.buffers i s.buffer ≡ (front ++ s.buffer ∷ []) ++ samples =
              ap (λ (l : List (List ℕ)). set l i s.buffer) at
              ∙ set_at front sample s.buffer samples i here
              ∙ sym (append_assoc front (s.buffer ∷ []) samples) in
            let later =
              rewrite_samples-TrackKept (suc i) samples (front ++ s.buffer ∷ [])
                (with_sample get_nalu_type i s t) buffers
                (omega (arith, length-append front (s.buffer ∷ []), here)) in
            rw (rewrite_samples, e)
              (TrackKept-cons front t.lengths sample s.buffer s.written samples _
                (nalus, framed, kept) later)
      ]

  -- What `initHEVCData` leaves when it returns no error. The model's fuel never runs out.
  abbrev pub HevcKept : List (List ℕ) → Ended (HevcData × Rewritten get_nalu_type) → Type 0
  HevcKept samples (done (d, t)) = AllKept samples t.buffers t.lengths
  HevcKept samples failed = Unit
  HevcKept samples panicked = Unit
  HevcKept samples out_of_fuel = ⊥

  module _ (describe : List (List ℕ) → List (List ℕ) → List (List ℕ) → Bool)
      (parse_sps : List ℕ → Option (String × (ℕ × ℕ))) where
    hevc_described-HevcKept :
        (samples : List (List ℕ)) (t : Rewritten get_nalu_type)
        → AllKept samples t.buffers t.lengths
        → HevcKept samples (hevc_described get_nalu_type describe parse_sps t)
    unfolding hevc_described
    hevc_described-HevcKept samples t h =
        let sets = λ (l : List Nalu). shown t.buffers l in
        elim (Bool-cases (describe (sets t.all_vpss) (sets t.all_spss) (sets t.all_ppss))) [
          | inr bad ↦ rw (hevc_described, bad) tt
          | inl good ↦ elim (Option-cases (get_elem? (sets t.all_spss) 0)) [
            | inl e ↦ rw (hevc_described, good, e) tt
            | inr (sps, e) ↦ elim (Option-cases (parse_sps sps)) [
              | inl f ↦ rw (hevc_described, good, e, f) tt
              | inr (info, f) ↦ rw (hevc_described, good, e, f) h
            ]
          ]
        ]

    rewritten-HevcKept :
        (samples : List (List ℕ)) (r : Ended (Rewritten get_nalu_type))
        → TrackKept [] [] samples r
        → HevcKept samples (elim r [
          | done rewritten ↦ hevc_described get_nalu_type describe parse_sps rewritten
          | failed ↦ failed
          | panicked ↦ panicked
          | out_of_fuel ↦ out_of_fuel
        ])
    rewritten-HevcKept samples (done t) (buffers, lengths, bs, ns, all) =
        hevc_described-HevcKept samples t (rw (bs, ns) all)
    rewritten-HevcKept samples failed h = tt
    rewritten-HevcKept samples panicked h = tt
    rewritten-HevcKept samples out_of_fuel h = h

    -- With any hvcC box, any samples, and whatever mp4ff makes of the parameter sets: when
    -- `initHEVCData` returns no error, each sample is units behind their lengths, and up to three more
    -- bytes at its end; and its `Data` in its buffer, which is written while it is read, are those of
    -- the units that are not parameter sets, each with its length, in their order, without those
    -- bytes. The loops end on all samples.
    pub init_hevc_data-HevcKept :
        (hvcc : Option (List (NaluKind × List (List ℕ)))) (samples : List (List ℕ))
        → HevcKept samples (init_hevc_data get_nalu_type describe parse_sps hvcc samples)
    unfolding init_hevc_data from_hvcc
    init_hevc_data-HevcKept none samples = tt
    init_hevc_data-HevcKept (some arrays) samples =
        let t = from_hvcc get_nalu_type arrays samples in
        let kept = rewrite_samples-TrackKept 0 samples [] t refl refl in
        elim (Bool-cases (length t.all_spss == 0 || length t.all_ppss == 0)) [
          | inl bad ↦ rw (init_hevc_data, bad) tt
          | inr good ↦ rw (init_hevc_data, good) (rewritten-HevcKept samples _ kept)
        ]
