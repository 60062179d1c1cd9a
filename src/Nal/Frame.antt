-- ===== src/Nal/Frame.antt =====
-- Frames of NAL units with 4-byte lengths: `LOCVideoWriter.Write` of internal/sub/loc.go and
-- `GenLOCVideoConfig` of internal/media.go.
use moqlivemock_svc.Base.{
  ℕ, zero, suc, ◌+◌, ◌*◌, ◌/◌, ◌%◌, Option, none, some, true, false, List, [], ◌∷◌, ◌++◌, ltb,
  if◌then◌else◌, length, take, drop,
}
use moqlivemock_svc.Base.Words.{u32}
use moqlivemock_svc.Asset.Types.{AvcData, HevcData, Av1Data}

-- binary.BigEndian.PutUint32 and Uint32
abbrev pub put_uint32 : ℕ → List ℕ
put_uint32 n = n / 16777216 % 256 ∷ n / 65536 % 256 ∷ n / 256 % 256 ∷ n % 256 ∷ []

abbrev pub get_uint32 : ℕ → ℕ → ℕ → ℕ → ℕ
get_uint32 a b c d = a * 16777216 + b * 65536 + c * 256 + d

-- The loop that writes each NAL unit with `uint32(len(n))` before it.
unfoldable pub write_nalus : List (List ℕ) → List ℕ
write_nalus [] = []
write_nalus (n ∷ nalus) = put_uint32 (u32 (length n)) ++ n ++ write_nalus nalus

unfoldable pub avc_loc_video_config : AvcData → List ℕ
unfolding write_nalus
avc_loc_video_config d = write_nalus (d.spss ++ d.ppss)

unfoldable pub hevc_loc_video_config : HevcData → List ℕ
unfolding write_nalus
hevc_loc_video_config d = write_nalus (d.vpss ++ d.spss ++ d.ppss)

unfoldable pub av1_loc_video_config : Av1Data → List ℕ
av1_loc_video_config d = if d.loc_needs_config then d.config_obus else []

abbrev pub start_code : List ℕ
start_code = 0 ∷ 0 ∷ 0 ∷ 1 ∷ []

-- What `Write` has written and how it ends: `finished` is a nil error, `exceeds` the error of a NAL
-- unit that is longer than the data, `write_failed` that of the output, `out_of_fuel` the model's own.
pub data Ending : Type 0 where
  finished exceeds write_failed out_of_fuel : Ending

abbrev pub after_write : List ℕ → List ℕ × Ending → List ℕ × Ending
after_write bytes rest = (bytes ++ rest.0, rest.1)

-- The output `w` is an io.Writer: its call number `k` takes all bytes without an error (`none`), or
-- takes some and returns an error.
module _ (w : ℕ → Option ℕ) where
  -- A round takes four bytes at least, and makes two calls of the output's `Write`.
  unfoldable pub write_loop : ℕ → ℕ → List ℕ → List ℕ × Ending
  write_loop zero k bytes = ([], out_of_fuel)
  write_loop (suc fuel) k (a ∷ b ∷ c ∷ d ∷ rest) =
      let nalu_len = get_uint32 a b c d in
      elim (ltb (length rest) nalu_len) [
        | true ↦ ([], exceeds)
        | false ↦ elim (w k) [
          | some n ↦ (take n start_code, write_failed)
          | none ↦ after_write start_code (elim (w (k + 1)) [
            | some n ↦ (take n (take nalu_len rest), write_failed)
            | none ↦ after_write (take nalu_len rest) (write_loop fuel (k + 2) (drop nalu_len rest))
          ])
        ]
      ]
  write_loop (suc fuel) k _ = ([], finished)

  abbrev pub write_loc_video : List ℕ → List ℕ × Ending
  write_loc_video payload = write_loop (suc (length payload)) 0 payload
