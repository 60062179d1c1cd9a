-- ===== src/Tests/Rewriting.antt =====
-- A sample with a sequence parameter set before a slice, rewritten in place.
use moqlivemock_svc.Base.{
  ℕ, suc, ◌≡◌, ◌≢◌, refl, Bool, true, false, Option, some, String, List, [], ◌∷◌, length, set, ◌==◌,
  if◌then◌else◌, arith,
}
use moqlivemock_svc.Media.Rewrite.{
  NaluKind, nalu_sps, nalu_pps, nalu_other, slice, Ended, done, bytes_equal, nalu_bytes, is_in,
  Rewriting, Rewritten, rewrite_samples, rewrite_loop,
}
use moqlivemock_svc.Media.RewriteKept.{parse_nalus}
use moqlivemock_svc.Media.RewriteTrack.{HevcKept, init_hevc_data-HevcKept}
use moqlivemock_svc.Media.VideoInit.{init_hevc_data, from_hvcc, sets_of, hevc_described}
use moqlivemock_svc.Asset.Types.{HevcData}
use moqlivemock_svc.Media.Overwritten.{IsAmong, spss-overwritten}

-- One type of first byte, 66, is that of a sequence parameter set.
abbrev nalu_type : ℕ → NaluKind
nalu_type first = if first == 66 then nalu_sps else nalu_other

abbrev hevc_sample : List ℕ
hevc_sample = 0 ∷ 0 ∷ 0 ∷ 2 ∷ 66 ∷ 1 ∷ 0 ∷ 0 ∷ 0 ∷ 3 ∷ 38 ∷ 5 ∷ 6 ∷ []

abbrev at_start : Rewriting
at_start = record { buffer = hevc_sample; written = 0; vpss = []; spss = []; ppss = [] }

test_parse :
    parse_nalus (suc (length hevc_sample)) hevc_sample
    ≡ done ((66 ∷ 1 ∷ []) ∷ (38 ∷ 5 ∷ 6 ∷ []) ∷ [])
unfolding parse_nalus
test_parse = refl

test_new :
    is_in
      (set (hevc_sample ∷ []) 0 hevc_sample)
      []
      (nalu_bytes (set (hevc_sample ∷ []) 0 hevc_sample) (slice 0 4 2))
    ≡ false
unfolding is_in
test_new = refl

-- What is left of the set's slice is the front of the unit after it.
spss-overwritten_example :
    (last : Rewriting) × (rewrite_loop nalu_type
        (hevc_sample ∷ [])
        0
        (suc (length hevc_sample))
        0
        at_start
      ≡ done last)
    × (IsAmong (slice 0 4 2) last.spss)
    × (nalu_bytes (set (hevc_sample ∷ []) 0 last.buffer) (slice 0 4 2) ≢ (66 ∷ 1 ∷ []))
spss-overwritten_example =
    spss-overwritten nalu_type (hevc_sample ∷ []) 0 66 38 (1 ∷ []) (5 ∷ 6 ∷ []) [] at_start
      (omega arith) refl test_parse refl refl test_new

abbrev takes_sets : List (List ℕ) → List (List ℕ) → List (List ℕ) → Bool
takes_sets vpss spss ppss = true

abbrev no_info : List ℕ → Option (String × (ℕ × ℕ))
no_info sps = some ("hvc1", (640, 360))

abbrev hvcc : Option (List (NaluKind × List (List ℕ)))
hvcc = some ((nalu_sps, (66 ∷ 9 ∷ []) ∷ []) ∷ (nalu_pps, (68 ∷ []) ∷ []) ∷ [])

init_hevc_data-HevcKept_example :
    HevcKept nalu_type
      (hevc_sample ∷ hevc_sample ∷ [])
      (init_hevc_data nalu_type takes_sets no_info hvcc (hevc_sample ∷ hevc_sample ∷ []))
init_hevc_data-HevcKept_example =
    init_hevc_data-HevcKept nalu_type takes_sets no_info hvcc (hevc_sample ∷ hevc_sample ∷ [])

-- The track that comes of it: the kept unit stands at the front of both buffers.
abbrev lengths_of : Ended (HevcData × Rewritten nalu_type) → List ℕ
lengths_of (done (d, t)) = t.lengths
lengths_of _ = []

test_lengths :
    lengths_of (init_hevc_data nalu_type takes_sets no_info hvcc (hevc_sample ∷ hevc_sample ∷ []))
    ≡ 7 ∷ 7 ∷ []
unfolding init_hevc_data from_hvcc sets_of rewrite_samples rewrite_loop is_in bytes_equal
    hevc_described
test_lengths = refl
