-- ===== src/Media/AvcInit.antt =====
-- `initAVCData` of internal/media.go. `get_nalus` is mp4ff's split of a sample: the offset and the
-- length of each unit's slice. `describe` and `parse_sps` are as for HEVC.
use moqlivemock_svc.Base.{
  ℕ, suc, Bool, ◌&&◌, ◌==◌, Option, none, some, List, [], ◌∷◌, ◌++◌, String, if◌then◌else◌, length,
  take, drop, get_elem?, set, map, not,
}
use moqlivemock_svc.Base.Words.{u32}
use moqlivemock_svc.Asset.Types.{AvcData}
use moqlivemock_svc.Media.Rewrite.{
  Nalu, owned, slice, Ended, done, failed, panicked, out_of_fuel, Rewriting, append_new_nalu,
  append_work, append_nalu, is_in,
}
use moqlivemock_svc.Media.VideoInit.{shown}

-- What avc.GetNaluType says of a unit's first byte: `avc_kept` are the slices and the SEI units.
pub data AvcKind : Type 0 where
  avc_sps avc_pps avc_kept avc_dropped : AvcKind

pub record AvcTrack : Type 0 where
  pub avc_buffers : List (List ℕ)
  pub avc_lengths : List ℕ
  pub avc_spss : List Nalu
  pub avc_ppss : List Nalu

module _ (get_nalu_type : ℕ → AvcKind) (get_nalus : List ℕ → Option (List (ℕ × ℕ))) where
  abbrev pub sort_avc : List (List ℕ) → ℕ → AvcKind → ℕ → ℕ → Rewriting → Rewriting
  unfolding is_in
  sort_avc buffers i avc_sps at len r = record r {
    spss = append_new_nalu (set buffers i r.buffer) r.spss (slice i at len);
  }
  sort_avc buffers i avc_pps at len r = record r {
    ppss = append_new_nalu (set buffers i r.buffer) r.ppss (slice i at len);
  }
  sort_avc buffers i avc_kept at len r = append_nalu at len (append_work len r)
  sort_avc buffers i avc_dropped at len r = r

  unfoldable pub avc_loop : List (List ℕ) → ℕ → List (ℕ × ℕ) → Rewriting → Ended Rewriting
  unfolding sort_avc
  avc_loop buffers i [] r = done r
  avc_loop buffers i ((at, len) ∷ nalus) r = elim (get_elem? (take len (drop at r.buffer)) 0) [
    | none ↦ panicked
    | some first ↦ avc_loop buffers i nalus (sort_avc buffers i (get_nalu_type first) at len r)
  ]

  unfoldable pub avc_samples : ℕ → List (List ℕ) → AvcTrack → Ended AvcTrack
  unfolding avc_loop
  avc_samples i [] t = done t
  avc_samples i (sample ∷ samples) t = elim (get_nalus sample) [
    | none ↦ failed
    | some nalus ↦
        elim (avc_loop t.avc_buffers i nalus (record {
          buffer = sample;
          written = 0;
          vpss = [];
          spss = t.avc_spss;
          ppss = t.avc_ppss;
        })) [
          | done r ↦ avc_samples (suc i) samples (record {
            avc_buffers = set t.avc_buffers i r.buffer;
            avc_lengths = t.avc_lengths ++ r.written ∷ [];
            avc_spss = r.spss;
            avc_ppss = r.ppss;
          })
          | failed ↦ failed
          | panicked ↦ panicked
          | out_of_fuel ↦ out_of_fuel
        ]
  ]

  module _ (describe : List (List ℕ) → List (List ℕ) → Bool)
      (parse_sps : List ℕ → Option (String × (ℕ × ℕ))) where
    abbrev avc_data : AvcTrack → String × (ℕ × ℕ) → AvcData × AvcTrack
    avc_data t (codec, (width, height)) = (
      record {
        spss = shown t.avc_buffers t.avc_spss;
        ppss = shown t.avc_buffers t.avc_ppss;
        codec = codec;
        width = u32 width;
        height = u32 height;
      },
      t,
    )

    abbrev avc_described : AvcTrack → Ended (AvcData × AvcTrack)
    avc_described t =
        if not (length t.avc_spss == 1 && length t.avc_ppss == 1)
        then failed
        else (if describe (shown t.avc_buffers t.avc_spss) (shown t.avc_buffers t.avc_ppss)
            then elim (get_elem? (shown t.avc_buffers t.avc_spss) 0) [
              | none ↦ panicked
              | some sps ↦ elim (parse_sps sps) [
                | none ↦ failed
                | some info ↦ done (avc_data t info)
              ]
            ]
            else failed)

    -- The sample entry's parameter sets count for avc1 alone.
    unfoldable pub init_avc_data :
        Bool → List (List ℕ) → List (List ℕ) → List (List ℕ) → Ended (AvcData × AvcTrack)
    unfolding avc_samples
    init_avc_data is_avc1 entry_spss entry_ppss samples =
        elim (avc_samples 0 samples (record {
          avc_buffers = samples;
          avc_lengths = [];
          avc_spss = if is_avc1 then map owned entry_spss else [];
          avc_ppss = if is_avc1 then map owned entry_ppss else [];
        })) [
          | done t ↦ avc_described t
          | failed ↦ failed
          | panicked ↦ panicked
          | out_of_fuel ↦ out_of_fuel
        ]
