-- ===== src/Media/VideoInit.antt =====
-- `initAVCData` and `initHEVCData` of internal/media.go around the rewriting of the samples. The
-- init segments are mp4ff's: `describe` says whether its descriptor takes the parameter sets, and
-- `parse_sps` is the codec string, the width and the height of a sequence parameter set.
use moqlivemock_svc.Base.{
  ℕ, Bool, ◌||◌, ◌==◌, Option, none, some, List, [], ◌∷◌, ◌++◌, String, if◌then◌else◌, length,
  get_elem?, map,
}
use moqlivemock_svc.Base.Words.{u32}
use moqlivemock_svc.Asset.Types.{HevcData}
use moqlivemock_svc.Media.Rewrite.{
  NaluKind, nalu_vps, nalu_sps, nalu_pps, Nalu, owned, Ended, done, failed, panicked, out_of_fuel,
  nalu_bytes, Rewritten, rewrite_samples,
}

abbrev pub shown : List (List ℕ) → List Nalu → List (List ℕ)
shown buffers nalus = map (nalu_bytes buffers) nalus

module _ (get_nalu_type : ℕ → NaluKind) where
  -- The `NaluArrays` of the hvcC box.
  unfoldable pub sets_of : NaluKind → List (NaluKind × List (List ℕ)) → List Nalu
  sets_of kind [] = []
  sets_of nalu_vps ((nalu_vps, nalus) ∷ arrays) = map owned nalus ++ sets_of nalu_vps arrays
  sets_of nalu_sps ((nalu_sps, nalus) ∷ arrays) = map owned nalus ++ sets_of nalu_sps arrays
  sets_of nalu_pps ((nalu_pps, nalus) ∷ arrays) = map owned nalus ++ sets_of nalu_pps arrays
  sets_of kind (array ∷ arrays) = sets_of kind arrays

  unfoldable pub from_hvcc :
      List (NaluKind × List (List ℕ)) → List (List ℕ) → Rewritten get_nalu_type
  unfolding sets_of
  from_hvcc arrays samples = record {
    buffers = samples;
    lengths = [];
    all_vpss = sets_of nalu_vps arrays;
    all_spss = sets_of nalu_sps arrays;
    all_ppss = sets_of nalu_pps arrays;
  }

  module _ (describe : List (List ℕ) → List (List ℕ) → List (List ℕ) → Bool)
      (parse_sps : List ℕ → Option (String × (ℕ × ℕ))) where
    abbrev pub hevc_data :
        Rewritten get_nalu_type → String × (ℕ × ℕ) → HevcData × Rewritten get_nalu_type
    hevc_data t (codec, (width, height)) = (
      record {
        vpss = shown t.buffers t.all_vpss;
        spss = shown t.buffers t.all_spss;
        ppss = shown t.buffers t.all_ppss;
        codec = codec;
        width = u32 width;
        height = u32 height;
      },
      t,
    )

    unfoldable pub hevc_described :
        Rewritten get_nalu_type → Ended (HevcData × Rewritten get_nalu_type)
    hevc_described t =
        if describe (shown t.buffers t.all_vpss) (shown t.buffers t.all_spss)
          (shown t.buffers t.all_ppss)
        then elim (get_elem? (shown t.buffers t.all_spss) 0) [
          | none ↦ panicked
          | some sps ↦ elim (parse_sps sps) [ none ↦ failed | some info ↦ done (hevc_data t info) ]
        ]
        else failed

    unfoldable pub init_hevc_data :
        Option (List (NaluKind × List (List ℕ)))
        → List (List ℕ)
        → Ended (HevcData × Rewritten get_nalu_type)
    unfolding rewrite_samples from_hvcc hevc_described
    init_hevc_data none samples = failed
    init_hevc_data (some arrays) samples =
        let t = from_hvcc arrays samples in
        if length t.all_spss == 0 || length t.all_ppss == 0
        then failed
        else elim (rewrite_samples get_nalu_type 0 samples t) [
          | done rewritten ↦ hevc_described rewritten
          | failed ↦ failed
          | panicked ↦ panicked
          | out_of_fuel ↦ out_of_fuel
        ]
