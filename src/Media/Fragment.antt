-- ===== src/Media/Fragment.antt =====
-- `createFragment` of internal/asset.go and `GenMoQGroup` of internal/moqgroup.go. The boxes around the
-- samples are mp4ff's and LOCMAF's: a fragment is the list of its samples, with its sequence number.
use moqlivemock_svc.Base.{
  ℕ, zero, suc, ◌+◌, ◌-◌, ◌*◌, Option, none, some, List, [], ◌∷◌, length, get_elem?,
}
use moqlivemock_svc.Base.Words.{u32, u64}
use moqlivemock_svc.Asset.Types.{FullSample, ContentTrack}
use moqlivemock_svc.Timing.Group.{calc_moq_group, group_chunks}
use moqlivemock_svc.Timing.Sample.{calc_sample}
use moqlivemock_svc.Nal.Splice.{Codec}
use moqlivemock_svc.Media.Caption.{CcSplice, frame_sei}

-- How the loop ends: the samples, the error of the splice, or the panic of an index out of range.
pub data Samples : Type 0 where
  samples : List FullSample → Samples
  splice_error out_of_range : Samples

abbrev pub cons_sample : FullSample → Samples → Samples
cons_sample s (samples rest) = samples (s ∷ rest)
cons_sample s splice_error = splice_error
cons_sample s out_of_range = out_of_range

-- The data of a sample, with the frame's SEI where the schedule has one. `splice` is
-- `SpliceSEIBeforeVCL`; `none` is its error.
abbrev pub captioned :
    (List ℕ → List ℕ → Codec → Option (List ℕ)) → Option CcSplice → ℕ → List ℕ → Option (List ℕ)
captioned splice none sample_nr bytes = some bytes
captioned splice (some cc) sample_nr bytes = elim (frame_sei cc.sei sample_nr cc.group_start_nr) [
  | none ↦ some bytes
  | some nal ↦ splice bytes nal cc.codec
]

-- The loop over the sample numbers, `count` of them from `sample_nr`.
unfoldable pub fragment_samples :
    (List ℕ → List ℕ → Codec → Option (List ℕ)) → ContentTrack → Option CcSplice → ℕ → ℕ → Samples
unfolding calc_sample
fragment_samples splice t cc sample_nr zero = samples []
fragment_samples splice t cc sample_nr (suc count) =
    let rest = fragment_samples splice t cc (sample_nr + 1) count in
    elim (get_elem? t.samples (calc_sample t sample_nr).1) [
      | none ↦ out_of_range
      | some orig ↦ elim (captioned splice cc sample_nr orig.bytes) [
        | none ↦ splice_error
        | some bytes ↦
            cons_sample
              (record {
                sync = orig.sync;
                dur = orig.dur;
                size = u32 (length bytes);
                decode_time = (calc_sample t sample_nr).0;
                bytes = bytes;
              })
              rest
      ]
    ]

unfoldable pub create_fragment :
    (List ℕ → List ℕ → Codec → Option (List ℕ)) → ContentTrack → ℕ → ℕ → Option CcSplice → Samples
unfolding fragment_samples
create_fragment splice t start_nr end_nr cc =
    fragment_samples splice t cc start_nr (end_nr - start_nr)

pub record MoqGroup : Type 0 where
  pub id : ℕ
  pub start_time : ℕ
  pub end_time : ℕ
  pub start_nr : ℕ
  pub end_nr : ℕ
  pub moq_objects : List (List ℕ)

-- The chunks in turn, with the state of the encoder: `gen` is GenCMAFChunk or GenLocmafChunk of a
-- sample range, which returns the next state, or `none` for its error.
abbrev pub gen_chunks {ℓ} :
    {S : Type ℓ} → (S → ℕ → ℕ → Option (List ℕ × S)) → S → List (ℕ × ℕ) → Option (List (List ℕ))
gen_chunks gen s [] = some []
gen_chunks gen s (range ∷ ranges) = elim (gen s range.0 range.1) [
  | none ↦ none
  | some made ↦ elim (gen_chunks gen made.1 ranges) [
    | none ↦ none
    | some objects ↦ some (made.0 ∷ objects)
  ]
]

-- `none` is an error of a chunk, or the fuel of `group_chunks`, which is never short.
unfoldable pub gen_moq_group {ℓ} :
    {S : Type ℓ}
    → (S → ℕ → ℕ → Option (List ℕ × S))
    → S
    → ContentTrack
    → ℕ
    → ℕ
    → ℕ
    → Option MoqGroup
unfolding calc_moq_group group_chunks
gen_moq_group gen state t group_nr sample_batch constant_dur_ms =
    let range = calc_moq_group t group_nr constant_dur_ms in
    elim (group_chunks sample_batch range.0 range.1) [
      | none ↦ none
      | some ranges ↦ elim (gen_chunks gen state ranges) [
        | none ↦ none
        | some objects ↦ some (record {
          id = u32 group_nr;
          start_time = u64 (range.0 * t.sample_dur);
          end_time = u64 (range.1 * t.sample_dur);
          start_nr = range.0;
          end_nr = range.1;
          moq_objects = objects;
        })
      ]
    ]
