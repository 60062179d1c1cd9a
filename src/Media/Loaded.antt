-- ===== src/Media/Loaded.antt =====
-- The tracks that `InitContentTrack` of internal/asset.go returns, by what they were made of.
use moqlivemock_svc.Base.{
  ℕ, ◌*◌, ◌<◌, ◌≡◌, refl, ap, ◌∙◌, true, not, ◌&&◌, ◌||◌, Option, none, some, List, String, ◌==◌,
  length, get_elem?, Bool-cases, Option-cases, inl, inr,
}
use moqlivemock_svc.Base.Words.{u32}
use moqlivemock_svc.Asset.Types.{FullSample, CodecSpecificData, ContentTrack}
use moqlivemock_svc.Asset.Setup.{validate_av1_svc_gop}
use moqlivemock_svc.Asset.Load.{
  Source, Loaded, loaded, all_samples, common_dur, time_offset, shifted, gop_length_of,
  content_type_of, new_track, is_svc, checked, with_gop, with_samples, init_content_track,
}
use moqlivemock_svc.Asset.Loading.{IsAtMultiple, gop_length_of-IsAtMultiple}

module _ (init_spec_data : String → List FullSample → Option (CodecSpecificData × List FullSample))
    (strip_ext : String → String) (float_bitrate : ℕ → ℕ → ℕ → ℕ) where
  -- What a track that is returned was made from.
  abbrev IsMade : Loaded → Type 0
  IsMade (loaded t) =
      (t.duration ≡ u32 (u32 (length t.samples) * t.sample_dur))
      × ((desc : String) × (samples : List FullSample) × (gop_length_of samples
            ≡ some (some t.gop_length))
          × (init_spec_data desc samples ≡ some (t.spec_data, t.samples)))
  IsMade other = Unit

  checked-IsMade :
      (ct : ContentTrack)
      → IsMade (loaded ct)
      → IsMade (checked init_spec_data strip_ext float_bitrate ct)
  checked-IsMade ct h =
      elim (Bool-cases (
        is_svc init_spec_data strip_ext float_bitrate ct.spec_data
        && not (validate_av1_svc_gop ct))) [ inl bad ↦ rw (bad) tt | inr good ↦ rw (good) h ]

  with_gop-IsMade :
      (f : Source) (name desc content_type : String) (batch sample_dur : ℕ)
      (samples : List FullSample)
      → IsMade (
          with_gop init_spec_data strip_ext float_bitrate f name desc content_type batch sample_dur
            samples)
  unfolding with_gop new_track
  with_gop-IsMade f name desc content_type batch sample_dur samples =
      elim (Option-cases (gop_length_of samples)) [
        | inl e ↦ rw (with_gop, e) tt
        | inr (found, e) ↦ elim (Option-cases found) [
          | inl bad ↦ rw (with_gop, e, bad) tt
          | inr (gop, good) ↦ elim (Option-cases (init_spec_data desc samples)) [
            | inl no_data ↦ rw (with_gop, e, good, no_data) tt
            | inr (made, there) ↦
                rw (with_gop, e, good, there)
                  (checked-IsMade _ (refl, (desc, samples, e ∙ ap some good, there)))
          ]
        ]
      ]

  with_samples-IsMade :
      (f : Source) (name desc content_type : String) (batch : ℕ) (samples : List FullSample)
      → IsMade (
          with_samples init_spec_data strip_ext float_bitrate f name desc content_type batch
            samples)
  unfolding with_samples
  with_samples-IsMade f name desc content_type batch samples =
      elim (Option-cases (common_dur 0 samples)) [
        | inl e ↦ rw (with_samples, e) tt
        | inr (sample_dur, e) ↦ elim (Option-cases (time_offset content_type f.edit_lists)) [
          | inl bad ↦ rw (with_samples, e, bad) tt
          | inr (offset, good) ↦
              rw (with_samples, e, good)
                (with_gop-IsMade f name desc content_type batch sample_dur (shifted offset samples))
        ]
      ]

  init_content_track-IsMade :
      (f : Option Source) (name : String) (audio_sample_batch video_sample_batch : ℕ)
      → IsMade (
          init_content_track init_spec_data strip_ext float_bitrate f name audio_sample_batch
            video_sample_batch)
  unfolding init_content_track
  init_content_track-IsMade none name audio_sample_batch video_sample_batch = tt
  init_content_track-IsMade (some f) name audio_sample_batch video_sample_batch =
      elim (Bool-cases (not f.is_fragmented || not (f.nr_traks == 1))) [
        | inl bad ↦ rw (init_content_track, bad) tt
        | inr one ↦ elim (Option-cases f.sample_desc) [
          | inl no_desc ↦ rw (init_content_track, one, no_desc) tt
          | inr (desc, d) ↦ elim (Option-cases (content_type_of desc)) [
            | inl other ↦ rw (init_content_track, one, d, other) tt
            | inr (content_type, c) ↦ elim (Option-cases (all_samples f.fragments)) [
              | inl bad ↦ rw (init_content_track, one, d, c, bad) tt
              | inr (samples, all) ↦
                  rw (init_content_track, one, d, c, all)
                    (with_samples-IsMade f name desc content_type _ samples)
            ]
          ]
        ]
      ]

  -- A track that `InitContentTrack` returns was made of samples to which the codec's init function has
  -- been applied; where they are fewer than 2 ^ 32 and the first is a sync sample, each sync sample
  -- among them stands at a multiple of the track's GOP length. The track's duration is the product of
  -- its number of samples and its sample duration, as a uint32.
  pub init_content_track-IsAtMultiple :
      (f : Option Source) (name : String) (audio_sample_batch video_sample_batch : ℕ)
      (t : ContentTrack)
      → init_content_track init_spec_data strip_ext float_bitrate f name audio_sample_batch
          video_sample_batch
        ≡ loaded t
      → (desc : String) × (samples : List FullSample) × (init_spec_data desc samples
          ≡ some (t.spec_data, t.samples))
        × (t.duration ≡ u32 (u32 (length t.samples) * t.sample_dur))
        × ((first : FullSample)
            → length samples < 4294967296
            → get_elem? samples 0 ≡ some first
            → first.sync ≡ true
            → IsAtMultiple t.gop_length 0 samples)
  init_content_track-IsAtMultiple f name audio_sample_batch video_sample_batch t e =
      let (lasts, (desc, samples, gop, made)) =
        rw (e) at (init_content_track-IsMade f name audio_sample_batch video_sample_batch) in
      (
        desc,
        samples,
        made,
        lasts,
        λ first few at sync. gop_length_of-IsAtMultiple samples t.gop_length first few gop at sync,
      )
