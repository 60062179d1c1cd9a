-- ===== src/Media/RewriteKept.antt =====
-- What the rewriting loop of `initHEVCData` (internal/media.go) leaves in a sample's buffer, against
-- a parse of the bytes that were there before.
use mathlib.Core.List.{append_assoc, append-nil}
use moqlivemock_svc.Base.{
  ℕ, zero, suc, ◌+◌, ◌≡◌, ◌<◌, refl, sym, ap, ◌∙◌, true, false, Bool-cases, Option-cases, none,
  some, inl, inr, ◌⊎◌, List, [], ◌∷◌, ◌++◌, ltb, length, take, drop, get_elem?, arith,
  length-append, length-take, length-drop, take-append-drop,
}
use moqlivemock_svc.Base.Words.{u32}
use moqlivemock_svc.Nal.Frame.{put_uint32, get_uint32, write_nalus}
use moqlivemock_svc.Media.Rewrite.{
  NaluKind, nalu_vps, nalu_sps, nalu_pps, nalu_other, Ended, done, failed, panicked, out_of_fuel,
  Rewriting, next_length, sort_nalu, rewrite_loop, Rewritten, new_rewriting,
}
use moqlivemock_svc.Media.RewriteSplit.{take_at, drop_at, append-moves, append_in_four}

abbrev pub after_nalu : List ℕ → Ended (List (List ℕ)) → Ended (List (List ℕ))
after_nalu nalu (done nalus) = done (nalu ∷ nalus)
after_nalu nalu other = other

-- The units of a sample's bytes, each behind its length; up to three bytes at the end are passed over.
unfoldable pub parse_nalus : ℕ → List ℕ → Ended (List (List ℕ))
parse_nalus zero bytes = out_of_fuel
parse_nalus (suc fuel) (a ∷ b ∷ c ∷ d ∷ rest) = elim (ltb (length rest) (get_uint32 a b c d)) [
  | true ↦ failed
  | false ↦ elim (get_elem? (take (get_uint32 a b c d) rest) 0) [
    | none ↦ panicked
    | some first ↦
        after_nalu (take (get_uint32 a b c d) rest)
          (parse_nalus fuel (drop (get_uint32 a b c d) rest))
  ]
]
parse_nalus (suc fuel) _ = done []

kind-cases :
    (kind : NaluKind)
    → (kind ≡ nalu_other) ⊎ ((kind ≡ nalu_vps) ⊎ ((kind ≡ nalu_sps) ⊎ (kind ≡ nalu_pps)))
kind-cases nalu_other = inl refl
kind-cases nalu_vps = inr (inl refl)
kind-cases nalu_sps = inr (inr (inl refl))
kind-cases nalu_pps = inr (inr (inr refl))

-- What the loop reads next, behind what is written and the gap.
dropped :
    (read : ℕ) (out gap rest buffer : List ℕ)
    → buffer ≡ out ++ (gap ++ rest)
    → read ≡ length out + length gap
    → drop read buffer ≡ rest
dropped read out gap rest buffer is behind =
    rw (is, ← append_assoc out gap rest)
      (drop_at read (out ++ gap) rest (omega (arith, behind, length-append out gap)))

module _ (get_nalu_type : ℕ → NaluKind) where
  abbrev pub if_kept : NaluKind → List ℕ → List (List ℕ) → List (List ℕ)
  if_kept nalu_other nalu rest = nalu ∷ rest
  if_kept _ nalu rest = rest

  -- The units that are not parameter sets.
  unfoldable pub kept_nalus : List (List ℕ) → List (List ℕ)
  kept_nalus [] = []
  kept_nalus ([] ∷ nalus) = kept_nalus nalus
  kept_nalus ((first ∷ nalu) ∷ nalus) =
      if_kept (get_nalu_type first) (first ∷ nalu) (kept_nalus nalus)

  -- The parse of a sample and its rewriting end alike, and the `Data` that is left are `front` and the
  -- units kept.
  abbrev pub Agrees : List ℕ → Ended (List (List ℕ)) → Ended Rewriting → Type 0
  Agrees front (done nalus) (done r) =
      take r.written r.buffer ≡ front ++ write_nalus (kept_nalus nalus)
  Agrees front failed failed = Unit
  Agrees front panicked panicked = Unit
  Agrees front _ _ = ⊥

  Agrees-after :
      (front front' nalu : List ℕ) (parse : Ended (List (List ℕ))) (call : Ended Rewriting)
      → ((nalus : List (List ℕ))
          → front' ++ write_nalus (kept_nalus nalus)
            ≡ front ++ write_nalus (kept_nalus (nalu ∷ nalus)))
      → Agrees front' parse call
      → Agrees front (after_nalu nalu parse) call
  Agrees-after front front' nalu (done nalus) (done r) same h = h ∙ same nalus
  Agrees-after front front' nalu failed failed same h = tt
  Agrees-after front front' nalu panicked panicked same h = tt
  Agrees-after front front' nalu _ _ same h = h

  -- A unit with a first byte is kept, or not.
  kept-cases :
      (nalu : List ℕ) (first : ℕ)
      → get_elem? nalu 0 ≡ some first
      → ((get_nalu_type first ≡ nalu_other)
          × ((nalus : List (List ℕ)) → kept_nalus (nalu ∷ nalus) ≡ nalu ∷ kept_nalus nalus))
        ⊎ ((nalus : List (List ℕ)) → kept_nalus (nalu ∷ nalus) ≡ kept_nalus nalus)
          × ((buffers : List (List ℕ)) (i at len : ℕ) (r : Rewriting)
              → ((sort_nalu get_nalu_type buffers i (get_nalu_type first) at len r).buffer
                  ≡ r.buffer)
                × ((sort_nalu get_nalu_type buffers i (get_nalu_type first) at len r).written
                    ≡ r.written))
  unfolding kept_nalus
  kept-cases [] first e = absurd (cc)
  kept-cases (f ∷ nalu) first e =
      let at : f ≡ first = cc in
      elim (kind-cases (get_nalu_type first)) [
        | inl k ↦ inl (k, λ nalus. rw (kept_nalus, at, k) refl)
        | inr (inl k) ↦ inr (
          (λ nalus. rw (kept_nalus, at, k) refl),
          λ buffers i at len r. rw (sort_nalu, k) (refl, refl),
        )
        | inr (inr (inl k)) ↦ inr (
          (λ nalus. rw (kept_nalus, at, k) refl),
          λ buffers i at len r. rw (sort_nalu, k) (refl, refl),
        )
        | inr (inr (inr k)) ↦ inr (
          (λ nalus. rw (kept_nalus, at, k) refl),
          λ buffers i at len r. rw (sort_nalu, k) (refl, refl),
        )
      ]

  module _ (buffers : List (List ℕ)) (i : ℕ) where
    -- With fewer than four bytes left, the loop ends.
    short-Agrees :
        (fuel read : ℕ) (out gap rest : List ℕ) (r : Rewriting)
        → next_length rest ≡ none
        → r.buffer ≡ out ++ (gap ++ rest)
        → r.written ≡ length out
        → read ≡ length out + length gap
        → Agrees out (done []) (rewrite_loop get_nalu_type buffers i (suc fuel) read r)
    unfolding rewrite_loop kept_nalus write_nalus
    short-Agrees fuel read out gap rest r short is at_end behind =
        let left : drop read r.buffer ≡ rest = dropped read out gap rest r.buffer is behind in
        rw (rewrite_loop, left, short, is, take_at r.written out (gap ++ rest) at_end)
          (sym (append-nil out))

    abbrev pub Continues : ℕ → Type 0
    Continues fuel =
        (read : ℕ) (out gap rest : List ℕ) (r : Rewriting)
        → length rest < fuel
        → r.buffer ≡ out ++ (gap ++ rest)
        → r.written ≡ length out
        → read ≡ length out + length gap
        → Agrees out (parse_nalus fuel rest) (rewrite_loop get_nalu_type buffers i fuel read r)

    round-Agrees :
        (fuel read first : ℕ) (out gap header nalu rest : List ℕ) (r : Rewriting)
        → Continues fuel
        → length header ≡ 4
        → length rest < fuel
        → get_elem? nalu 0 ≡ some first
        → r.buffer ≡ out ++ (gap ++ (header ++ (nalu ++ rest)))
        → r.written ≡ length out
        → read ≡ length out + length gap
        → Agrees out (after_nalu nalu (parse_nalus fuel rest)) (
            rewrite_loop get_nalu_type buffers i fuel
              (read + 4 + length nalu)
              (sort_nalu get_nalu_type buffers i (get_nalu_type first) (read + 4) (length nalu) r))
    unfolding write_nalus
    round-Agrees fuel read first out gap header nalu rest r later four fuels e is at_end behind =
        elim (kept-cases nalu first e) [
          | inl (kind, kept) ↦
              let (gap', moved, same) =
                append-moves out gap header nalu rest (read + 4) r four is at_end
                  (omega (arith, behind)) in
              let work = put_uint32 (u32 (length nalu)) in
              let total = length-append out (work ++ nalu) in
              let more = length-append work nalu in
              Agrees-after out (out ++ (work ++ nalu)) nalu (parse_nalus fuel rest) _
                (λ nalus.
                  rw (kept nalus, append_assoc out (work ++ nalu) (write_nalus (kept_nalus nalus)))
                    refl)
                (rw (kind) (
                  later (read + 4 + length nalu) (out ++ (work ++ nalu)) gap' rest _ fuels moved
                    (omega (arith, at_end, total, more))
                    (omega (arith, behind, total, more, same))))
          | inr (kept, sorted) ↦
              let (buffer, written) = sorted buffers i (read + 4) (length nalu) r in
              let total = length-append gap (header ++ nalu) in
              let more = length-append header nalu in
              Agrees-after out out nalu (parse_nalus fuel rest) _ (λ nalus. rw (kept nalus) refl)
                (later (read + 4 + length nalu) out (gap ++ (header ++ nalu)) rest _ fuels
                  (buffer
                    ∙ is
                    ∙ ap (λ (l : List ℕ). out ++ l) (append_in_four gap header nalu rest))
                  (written ∙ at_end) (omega (arith, behind, total, more, four)))
        ]

    pub loop-Agrees : (fuel : ℕ) → Continues fuel
    unfolding parse_nalus rewrite_loop
    loop-Agrees zero read out gap rest r h is at_end behind = absurd (omega arith)
    loop-Agrees (suc fuel) read out gap [] r h is at_end behind =
        short-Agrees fuel read out gap [] r refl is at_end behind
    loop-Agrees (suc fuel) read out gap (a ∷ []) r h is at_end behind =
        short-Agrees fuel read out gap (a ∷ []) r refl is at_end behind
    loop-Agrees (suc fuel) read out gap (a ∷ b ∷ []) r h is at_end behind =
        short-Agrees fuel read out gap (a ∷ b ∷ []) r refl is at_end behind
    loop-Agrees (suc fuel) read out gap (a ∷ b ∷ c ∷ []) r h is at_end behind =
        short-Agrees fuel read out gap (a ∷ b ∷ c ∷ []) r refl is at_end behind
    loop-Agrees (suc fuel) read out gap (a ∷ b ∷ c ∷ d ∷ rest) r h is at_end behind =
        let len = get_uint32 a b c d in
        let header = a ∷ b ∷ c ∷ d ∷ [] in
        let left = dropped read out gap (header ++ rest) r.buffer is behind in
        let after =
          dropped (read + 4) out (gap ++ header) rest r.buffer
            (is ∙ ap (λ (l : List ℕ). out ++ l) (sym (append_assoc gap header rest)))
            (omega (arith, behind, length-append gap header)) in
        elim (Bool-cases (ltb (length rest) len)) [
          | inl long ↦ rw (parse_nalus, rewrite_loop, left, after, long) tt
          | inr fits ↦ elim (Option-cases (get_elem? (take len rest) 0)) [
            | inl empty ↦ rw (parse_nalus, rewrite_loop, left, after, fits, after, empty) tt
            | inr (first, e) ↦
                let short : length (take len rest) ≡ len = ground (arith, length-take len rest) in
                let split : r.buffer
                    ≡ out ++ (gap ++ (header ++ (take len rest ++ drop len rest))) =
                  is
                  ∙ ap (λ (l : List ℕ). out ++ (gap ++ (header ++ l)))
                      (sym (take-append-drop len rest)) in
                let round =
                  round-Agrees fuel read first out gap header (take len rest) (drop len rest) r
                    (loop-Agrees fuel) refl (omega (arith, length-drop len rest)) e split at_end
                    behind in
                rw (parse_nalus, rewrite_loop, left, after, fits, after, e) (rw (short) at round)
          ]
        ]

  -- Whatever a sample holds, and with whatever parameter sets and other samples before it, the
  -- rewriting of its buffer in place and the parse of its bytes from before end alike: in the error of
  -- a length that exceeds the data, in an index out of range at a unit of no bytes, or without an
  -- error; then the sample's `Data` are the units that are not parameter sets, each with its length,
  -- in their order. Neither runs out of fuel.
  pub rewrite_loop-Agrees :
      (i : ℕ) (sample : List ℕ) (t : Rewritten get_nalu_type)
      → Agrees [] (parse_nalus (suc (length sample)) sample) (
          rewrite_loop get_nalu_type t.buffers i
            (suc (length sample))
            0
            (new_rewriting get_nalu_type sample t))
  rewrite_loop-Agrees i sample t =
      loop-Agrees t.buffers i (suc (length sample)) 0 [] [] sample _ (omega arith) refl refl refl
