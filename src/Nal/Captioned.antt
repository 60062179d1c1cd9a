-- ===== src/Nal/Captioned.antt =====
-- The subscriber's AnnexB writer on a frame into which the publisher has spliced a caption.
use mathlib.Core.List.{append_assoc}
use moqlivemock_svc.Base.{
  ℕ, zero, suc, ◌<◌, ◌≡◌, refl, sym, ◌↔◌, Bool, true, Option, some, List, [], ◌∷◌, ◌++◌, ltb, ◌&&◌,
  length, take, drop, arith, Bool-cases, inl, inr, take-append-drop,
}
use moqlivemock_svc.Nal.Frame.{write_nalus, finished, write_loc_video}
use moqlivemock_svc.Nal.Splice.{
  Codec, codec_avc, codec_hevc, splice_sei_before_vcl, ordered_nalus, insert_at, is_vcl_nalu,
}
use moqlivemock_svc.Nal.Framing.{annex_b, AllFit, NeverFails, write_loc_video-write_nalus}

annex_b-append : (xs ys : List (List ℕ)) → annex_b (xs ++ ys) ≡ annex_b xs ++ annex_b ys
annex_b-append [] ys = refl
annex_b-append (x ∷ xs) ys =
    rw (annex_b-append xs ys, append_assoc x (annex_b xs) (annex_b ys)) refl

AllFit-insert :
    (i : ℕ) (nalus : List (List ℕ)) (sei : List ℕ)
    → AllFit nalus
    → length sei < 4294967296
    → AllFit (take i nalus ++ sei ∷ drop i nalus)
AllFit-insert zero nalus sei fit short = (short, fit)
AllFit-insert (suc i) [] sei fit short = (short, fit)
AllFit-insert (suc i) (n ∷ nalus) sei (first, fit) short =
    (first, AllFit-insert i nalus sei fit short)

-- The unit has a first byte, and it is one of a slice by the codec's rule.
module _ (is_avc_video is_hevc_video : ℕ → Bool) where
  abbrev pub IsSlice : Codec → List ℕ → Type 0
  IsSlice codec [] = ⊥
  IsSlice codec_avc (first ∷ nalu) = is_avc_video first ≡ true
  IsSlice codec_hevc (first ∷ nalu) = is_hevc_video first ≡ true

  abbrev pub NoSlices : Codec → List (List ℕ) → Type 0
  NoSlices codec [] = Unit
  NoSlices codec (n ∷ nalus) = (¬ (IsSlice codec n)) × NoSlices codec nalus

  abbrev pub StartsWithSlice : Codec → List (List ℕ) → Type 0
  StartsWithSlice codec [] = Unit
  StartsWithSlice codec (n ∷ nalus) = IsSlice codec n

  is_vcl_nalu-IsSlice :
      (codec : Codec) (n : List ℕ)
      → ((ltb 0 (length n) && is_vcl_nalu is_avc_video is_hevc_video n codec) ≡ true)
        ↔ IsSlice codec n
  unfolding is_vcl_nalu
  is_vcl_nalu-IsSlice codec [] = ((λ e. absurd (cc)), (λ h. absurd h))
  is_vcl_nalu-IsSlice codec_avc (first ∷ nalu) = ((λ e. ground arith), (λ h. ground arith))
  is_vcl_nalu-IsSlice codec_hevc (first ∷ nalu) = ((λ e. ground arith), (λ h. ground arith))

  insert_at-splits :
      (codec : Codec) (nalus : List (List ℕ))
      → let i = insert_at is_avc_video is_hevc_video nalus codec in
        NoSlices codec (take i nalus) × StartsWithSlice codec (drop i nalus)
  unfolding insert_at
  insert_at-splits codec [] = (tt, tt)
  insert_at-splits codec (n ∷ nalus) =
      let (before, after) = insert_at-splits codec nalus in
      let slice = is_vcl_nalu-IsSlice codec n in
      elim (Bool-cases (ltb 0 (length n) && is_vcl_nalu is_avc_video is_hevc_video n codec)) [
        | inl is ↦ rw (insert_at, is) (tt, slice.0 is)
        | inr other ↦
            rw (insert_at, other) (((λ h. let is = slice.1 h in absurd (cc)), before), after)
      ]

  -- A frame of units of fewer than 2^32 bytes, into which the publisher splices a caption of fewer than
  -- 2^32 bytes, is written by the subscriber, when every write of its output succeeds, as the frame's
  -- units in their order with the caption's unit among them: no unit before it is a slice, and the unit
  -- directly after it is one, or there is none after it.
  pub splice_sei_before_vcl-written :
      (get_nalus : List ℕ → Option (List (List ℕ))) (w : ℕ → Option ℕ) (sample_data sei : List ℕ)
      (codec : Codec) (nalus : List (List ℕ))
      → get_nalus sample_data ≡ some nalus
      → AllFit nalus
      → length sei < 4294967296
      → NeverFails w
      → (out : List ℕ) × (before : List (List ℕ)) × (after : List (List ℕ)) × (splice_sei_before_vcl
            is_avc_video is_hevc_video get_nalus sample_data sei codec
          ≡ some out)
        × (nalus ≡ before ++ after)
        × NoSlices codec before
        × StartsWithSlice codec after
        × (write_loc_video w out ≡ (annex_b before ++ annex_b (sei ∷ after), finished))
  unfolding splice_sei_before_vcl
  splice_sei_before_vcl-written get_nalus w sample_data sei codec nalus split fit short works =
      let n = insert_at is_avc_video is_hevc_video nalus codec in
      let fits = AllFit-insert n nalus sei fit short in
      let (none_before, first_after) = insert_at-splits codec nalus in
      (
        write_nalus (ordered_nalus is_avc_video is_hevc_video nalus sei codec),
        take n nalus,
        drop n nalus,
        rw (splice_sei_before_vcl, split) refl,
        sym (take-append-drop n nalus),
        none_before,
        first_after,
        rw
            (
              write_loc_video-write_nalus w (take n nalus ++ sei ∷ drop n nalus) works fits,
              annex_b-append (take n nalus) (sei ∷ drop n nalus),
            )
            refl,
      )
