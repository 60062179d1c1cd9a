-- ===== src/Nal/Splice.antt =====
-- `SpliceSEIBeforeVCL` of internal/cc608/splice.go. The split into NAL units is mp4ff's, and so is the
-- type of a unit: `get_nalus` and `is_vcl` stand for them.
use moqlivemock_svc.Base.{
  ℕ, suc, Bool, false, ◌&&◌, Option, none, some, List, [], ◌∷◌, ◌++◌, ltb, if◌then◌else◌, length,
  take, drop,
}
use moqlivemock_svc.Nal.Frame.{write_nalus}

pub data Codec : Type 0 where
  codec_avc codec_hevc : Codec

-- `hevc.IsVideoNaluType(hevc.GetNaluType(nalu[0]))` and its AVC counterpart, of the first byte.
module _ (is_avc_video is_hevc_video : ℕ → Bool) where
  unfoldable pub is_vcl_nalu : List ℕ → Codec → Bool
  is_vcl_nalu [] codec = false
  is_vcl_nalu (first ∷ nalu) codec_avc = is_avc_video first
  is_vcl_nalu (first ∷ nalu) codec_hevc = is_hevc_video first

  -- `len(n) > 0 && isVCLNalu(n, codec)`, for the first unit that has it; else the number of units.
  unfoldable pub insert_at : List (List ℕ) → Codec → ℕ
  unfolding is_vcl_nalu
  insert_at [] codec = 0
  insert_at (n ∷ nalus) codec =
      let rest = insert_at nalus codec in
      if ltb 0 (length n) && is_vcl_nalu n codec then 0 else suc rest

  abbrev pub ordered_nalus : List (List ℕ) → List ℕ → Codec → List (List ℕ)
  ordered_nalus nalus sei codec =
      take (insert_at nalus codec) nalus ++ sei ∷ drop (insert_at nalus codec) nalus

  unfoldable pub splice_sei_before_vcl :
      (List ℕ → Option (List (List ℕ))) → List ℕ → List ℕ → Codec → Option (List ℕ)
  unfolding insert_at write_nalus
  splice_sei_before_vcl get_nalus sample_data sei codec = elim (get_nalus sample_data) [
    | none ↦ none
    | some nalus ↦ some (write_nalus (ordered_nalus nalus sei codec))
  ]
