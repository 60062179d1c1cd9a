-- ===== src/Media/Rewrite.antt =====
-- `initHEVCData` and `appendNewNALU` of internal/media.go: the parameter sets are taken out of the
-- samples, in place. A NAL unit is a slice of its sample's buffer, and `append` to `Data[:0]` writes
-- into that buffer: each round of the loop reads what the rounds before left there.
use moqlivemock_svc.Base.{
  ℕ, zero, suc, ◌+◌, Bool, true, false, ◌&&◌, ◌||◌, ◌==◌, Option, none, some, List, [], ◌∷◌, ◌++◌,
  ltb, if◌then◌else◌, length, take, drop, get_or, get_elem?, set,
}
use moqlivemock_svc.Base.Words.{u32}
use moqlivemock_svc.Nal.Frame.{put_uint32, get_uint32}

-- What hevc.GetNaluType says of a unit's first byte.
pub data NaluKind : Type 0 where
  nalu_vps nalu_sps nalu_pps nalu_other : NaluKind

-- A slice of other memory, or one of a sample: its index, the offset in its buffer and the length.
pub data Nalu : Type 0 where
  owned : List ℕ → Nalu
  slice : ℕ → ℕ → ℕ → Nalu

-- How a call ends: a nil error, an error, an index out of range, or the model's own.
pub data Ended (A : Type 0) : Type 0 where
  done : A → Ended A
  failed panicked out_of_fuel : Ended A

-- bytes.Equal
unfoldable pub bytes_equal : List ℕ → List ℕ → Bool
bytes_equal [] [] = true
bytes_equal (x ∷ xs) (y ∷ ys) = x == y && bytes_equal xs ys
bytes_equal _ _ = false

-- The bytes that a slice shows now.
abbrev pub nalu_bytes : List (List ℕ) → Nalu → List ℕ
nalu_bytes buffers (owned bytes) = bytes
nalu_bytes buffers (slice i at len) = take len (drop at (get_or buffers i []))

unfoldable pub is_in : List (List ℕ) → List Nalu → List ℕ → Bool
unfolding bytes_equal
is_in buffers [] nalu = false
is_in buffers (v ∷ nalus) nalu = bytes_equal (nalu_bytes buffers v) nalu || is_in buffers nalus nalu

abbrev pub append_new_nalu : List (List ℕ) → List Nalu → Nalu → List Nalu
append_new_nalu buffers nalus nalu =
    if is_in buffers nalus (nalu_bytes buffers nalu) then nalus else nalus ++ nalu ∷ []

-- `append` within the capacity: the bytes take the place of those at `at`.
abbrev pub overwrite : ℕ → List ℕ → List ℕ → List ℕ
overwrite at bytes buffer = take at buffer ++ (bytes ++ drop (at + length bytes) buffer)

-- One sample on the way: its buffer, the length of its `Data`, and the parameter sets.
pub record Rewriting : Type 0 where
  pub buffer : List ℕ
  pub written : ℕ
  pub vpss : List Nalu
  pub spss : List Nalu
  pub ppss : List Nalu

-- `append` of `work` and of the unit, which is read when the length stands in the buffer.
abbrev pub append_work : ℕ → Rewriting → Rewriting
append_work len r = record r {
  buffer = overwrite r.written (put_uint32 (u32 len)) r.buffer;
  written = r.written + 4;
}

abbrev pub append_nalu : ℕ → ℕ → Rewriting → Rewriting
append_nalu at len r = record r {
  buffer = overwrite r.written (take len (drop at r.buffer)) r.buffer;
  written = r.written + len;
}

-- The length at the front of `data`, when there are four bytes.
abbrev pub next_length : List ℕ → Option ℕ
next_length (a ∷ b ∷ c ∷ d ∷ rest) = some (get_uint32 a b c d)
next_length _ = none

-- `get_nalu_type` is mp4ff's, of the first byte; the other buffers, and the index of this sample's.
module _ (get_nalu_type : ℕ → NaluKind) where
  abbrev pub sort_nalu : List (List ℕ) → ℕ → NaluKind → ℕ → ℕ → Rewriting → Rewriting
  sort_nalu buffers i nalu_vps at len r = record r {
    vpss = append_new_nalu (set buffers i r.buffer) r.vpss (slice i at len);
  }
  sort_nalu buffers i nalu_sps at len r = record r {
    spss = append_new_nalu (set buffers i r.buffer) r.spss (slice i at len);
  }
  sort_nalu buffers i nalu_pps at len r = record r {
    ppss = append_new_nalu (set buffers i r.buffer) r.ppss (slice i at len);
  }
  sort_nalu buffers i nalu_other at len r = append_nalu at len (append_work len r)

  -- `read` is where `data` starts in the buffer. A round reads four bytes at least.
  unfoldable pub rewrite_loop : List (List ℕ) → ℕ → ℕ → ℕ → Rewriting → Ended Rewriting
  unfolding is_in
  rewrite_loop buffers i zero read r = out_of_fuel
  rewrite_loop buffers i (suc fuel) read r = elim (next_length (drop read r.buffer)) [
    | none ↦ done r
    | some len ↦ elim (ltb (length (drop (read + 4) r.buffer)) len) [
      | true ↦ failed
      | false ↦ elim (get_elem? (take len (drop (read + 4) r.buffer)) 0) [
        | none ↦ panicked
        | some first ↦
            rewrite_loop buffers i fuel (read + 4 + len)
              (sort_nalu buffers i (get_nalu_type first) (read + 4) len r)
      ]
    ]
  ]

  -- The track on the way: the samples' buffers, the lengths of their `Data`, and the parameter sets.
  pub record Rewritten : Type 0 where
    pub buffers : List (List ℕ)
    pub lengths : List ℕ
    pub all_vpss : List Nalu
    pub all_spss : List Nalu
    pub all_ppss : List Nalu

  abbrev pub new_rewriting : List ℕ → Rewritten → Rewriting
  new_rewriting sample t = record {
    buffer = sample;
    written = 0;
    vpss = t.all_vpss;
    spss = t.all_spss;
    ppss = t.all_ppss;
  }

  abbrev pub with_sample : ℕ → Rewriting → Rewritten → Rewritten
  with_sample i r t = record {
    buffers = set t.buffers i r.buffer;
    lengths = t.lengths ++ r.written ∷ [];
    all_vpss = r.vpss;
    all_spss = r.spss;
    all_ppss = r.ppss;
  }

  unfoldable pub rewrite_samples : ℕ → List (List ℕ) → Rewritten → Ended Rewritten
  unfolding rewrite_loop
  rewrite_samples i [] t = done t
  rewrite_samples i (sample ∷ samples) t =
      elim (rewrite_loop t.buffers i (suc (length sample)) 0 (new_rewriting sample t)) [
        | done r ↦ rewrite_samples (suc i) samples (with_sample i r t)
        | failed ↦ failed
        | panicked ↦ panicked
        | out_of_fuel ↦ out_of_fuel
      ]
