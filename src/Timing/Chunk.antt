-- ===== src/Timing/Chunk.antt =====
-- The objects of a group tile its sample range.
use moqlivemock_svc.Base.{
  ℕ, zero, suc, ◌+◌, ◌-◌, ◌≤◌, ◌<◌, ◌≡◌, refl, arith, ltb, List, [], ◌∷◌, some, true, Bool-cases,
  ltb→lt, inl, inr, min,
}
use moqlivemock_svc.Base.Words.{u64}
use moqlivemock_svc.Timing.Group.{chunk_loop, group_chunks}

-- The chunks follow one another from `i` up to `e`; each is a batch long, but the last one may be
-- shorter, and none is empty.
abbrev pub Tiles : ℕ → ℕ → ℕ → List (ℕ × ℕ) → Type 0
Tiles batch i e [] = i ≡ e
Tiles batch i e ((from, to) ∷ chunks) =
    (from ≡ i) × (from < to) × (to ≡ min (from + batch) e) × Tiles batch to e chunks

chunk_loop-end : (fuel batch i e : ℕ) → 0 < fuel → e ≤ i → chunk_loop fuel batch i e ≡ some []
unfolding chunk_loop
chunk_loop-end zero batch i e h le = absurd (omega arith)
chunk_loop-end (suc fuel) batch i e h le = ground arith

chunk_loop-step :
    (fuel batch i e to : ℕ) (rest : List (ℕ × ℕ))
    → ltb i e ≡ true
    → u64 (i + batch) ≡ to
    → chunk_loop fuel batch to e ≡ some rest
    → chunk_loop (suc fuel) batch i e ≡ some ((i, min to e) ∷ rest)
unfolding chunk_loop
chunk_loop-step fuel batch i e to rest more step runs = rw (more, chunk_loop, step, runs) (rw step)

chunk_loop-Tiles :
    (fuel batch i e : ℕ)
    → 0 < batch
    → i ≤ e
    → e - i < fuel
    → e + batch < 18446744073709551616
    → (chunks : List (ℕ × ℕ)) × (chunk_loop fuel batch i e ≡ some chunks) × Tiles batch i e chunks
unfolding chunk_loop
chunk_loop-Tiles zero batch i e pos le enough fits = absurd (omega arith)
chunk_loop-Tiles (suc fuel) batch i e pos le enough fits = elim (Bool-cases (ltb i e)) [
  | inr done ↦ (
    [],
    chunk_loop-end (suc fuel) batch i e (omega arith) (ground (arith, done)),
    ground (arith, done),
  )
  | inl more ↦
      let started : i < e = ltb→lt i e more in
      let exact : u64 (i + batch) ≡ i + batch = omega arith in
      elim (Bool-cases (ltb (i + batch) e)) [
        | inl full ↦
            let inside : i + batch < e = ltb→lt (i + batch) e full in
            let (chunks, runs, tiles) =
              chunk_loop-Tiles fuel batch (i + batch) e pos (omega arith) (omega arith) fits in
            let whole : min (i + batch) e ≡ i + batch = omega arith in
            (
              (i, min (i + batch) e) ∷ chunks,
              chunk_loop-step fuel batch i e (i + batch) chunks more exact runs,
              (refl, omega arith, refl, rw whole tiles),
            )
        | inr short ↦
            let ended : e ≤ i + batch = ground (arith, short) in
            let cut : min (i + batch) e ≡ e = omega arith in
            (
              (i, min (i + batch) e) ∷ [],
              chunk_loop-step fuel batch i e (i + batch) [] more exact
                  (chunk_loop-end fuel batch (i + batch) e (omega arith) ended),
              (refl, omega arith, refl, cut),
            )
      ]
]

-- With a batch of at least one sample the loop ends, and its chunks cut the whole range [start, end)
-- into pieces of one batch each, the last one possibly shorter.
pub group_chunks-Tiles :
    (batch start_nr end_nr : ℕ)
    → 0 < batch
    → start_nr ≤ end_nr
    → end_nr + batch < 18446744073709551616
    → (chunks : List (ℕ × ℕ)) × (group_chunks batch start_nr end_nr ≡ some chunks)
      × Tiles batch start_nr end_nr chunks
unfolding group_chunks
group_chunks-Tiles batch start_nr end_nr pos le fits =
    chunk_loop-Tiles (suc (end_nr - start_nr)) batch start_nr end_nr pos le (omega arith) fits
