-- ===== src/Media/Overwritten.antt =====
-- The parameter sets that `initHEVCData` (internal/media.go) finds in a sample are slices of the
-- buffer that it rewrites.
use moqlivemock_svc.Base.{
  ℕ, zero, suc, ◌+◌, ◌≡◌, ◌≢◌, ◌<◌, refl, sym, ap, ◌∙◌, false, Bool-cases, Option-cases, some, inl,
  inr, ◌⊎◌, List, [], ◌∷◌, ◌++◌, ltb, length, take, drop, get_elem?, arith, get_or, set,
  length-take, take-append-drop,
}
use moqlivemock_svc.Base.Words.{u32}
use moqlivemock_svc.Nal.Frame.{put_uint32, get_uint32, write_nalus}
use moqlivemock_svc.Media.Rewrite.{
  NaluKind, nalu_vps, nalu_sps, nalu_pps, nalu_other, Ended, done, failed, panicked, out_of_fuel,
  Rewriting, next_length, sort_nalu, rewrite_loop, Nalu, slice, nalu_bytes, append_new_nalu, is_in,
}
use moqlivemock_svc.Media.RewriteKept.{parse_nalus, kept_nalus, Agrees, loop-Agrees, after_nalu}

-- The slice is one of the list.
abbrev pub IsAmong : Nalu → List Nalu → Type 0
IsAmong nalu [] = ⊥
IsAmong nalu (v ∷ nalus) = (v ≡ nalu) ⊎ IsAmong nalu nalus

IsAmong-append_left :
    (nalu : Nalu) (nalus more : List Nalu) → IsAmong nalu nalus → IsAmong nalu (nalus ++ more)
IsAmong-append_left nalu [] more h = absurd h
IsAmong-append_left nalu (v ∷ nalus) more (inl e) = inl e
IsAmong-append_left nalu (v ∷ nalus) more (inr h) = inr (IsAmong-append_left nalu nalus more h)

IsAmong-last : (nalu : Nalu) (nalus : List Nalu) → IsAmong nalu (nalus ++ nalu ∷ [])
IsAmong-last nalu [] = inl refl
IsAmong-last nalu (v ∷ nalus) = inr (IsAmong-last nalu nalus)

module _ (get_nalu_type : ℕ → NaluKind) (buffers : List (List ℕ)) (i : ℕ) where
  sort_nalu-keeps :
      (nalu : Nalu) (kind : NaluKind) (at len : ℕ) (r : Rewriting)
      → IsAmong nalu r.spss
      → IsAmong nalu (sort_nalu get_nalu_type buffers i kind at len r).spss
  unfolding is_in
  sort_nalu-keeps nalu nalu_vps at len r h = h
  sort_nalu-keeps nalu nalu_pps at len r h = h
  sort_nalu-keeps nalu nalu_other at len r h = h
  sort_nalu-keeps nalu nalu_sps at len r h =
      let others = set buffers i r.buffer in
      elim (Bool-cases (is_in others r.spss (nalu_bytes others (slice i at len)))) [
        | inl e ↦ rw (sort_nalu, append_new_nalu, e) h
        | inr e ↦ rw (sort_nalu, append_new_nalu, e) (IsAmong-append_left nalu r.spss _ h)
      ]

  -- What the loop has found stays found.
  abbrev FoundIn : Nalu → Ended Rewriting → Type 0
  FoundIn nalu (done r) = IsAmong nalu r.spss
  FoundIn nalu other = Unit

  rewrite_loop-FoundIn :
      (nalu : Nalu) (fuel read : ℕ) (r : Rewriting)
      → IsAmong nalu r.spss
      → FoundIn nalu (rewrite_loop get_nalu_type buffers i fuel read r)
  unfolding rewrite_loop
  rewrite_loop-FoundIn nalu zero read r h = tt
  rewrite_loop-FoundIn nalu (suc fuel) read r h =
      elim (Option-cases (next_length (drop read r.buffer))) [
        | inl e ↦ rw (FoundIn, rewrite_loop, e) h
        | inr (len, e) ↦ elim (Bool-cases (ltb (length (drop (read + 4) r.buffer)) len)) [
          | inl long ↦ rw (FoundIn, rewrite_loop, e, long) tt
          | inr fits ↦ elim (Option-cases (get_elem? (take len (drop (read + 4) r.buffer)) 0)) [
            | inl empty ↦ rw (FoundIn, rewrite_loop, e, fits, empty) tt
            | inr (first, f) ↦
                rw (rewrite_loop, e, fits, f)
                  (rewrite_loop-FoundIn nalu fuel (read + 4 + len) _
                    (sort_nalu-keeps nalu (get_nalu_type first) (read + 4) len r h))
          ]
        ]
      ]

-- What the parse of a buffer says of its front, when there is a unit.
after_nalu-first :
    (nalu first : List ℕ) (nalus : List (List ℕ)) (parse : Ended (List (List ℕ)))
    → after_nalu first parse ≡ done (nalu ∷ nalus)
    → first ≡ nalu
after_nalu-first nalu first nalus (done others) e = cc
after_nalu-first nalu first nalus failed e = absurd (cc)
after_nalu-first nalu first nalus panicked e = absurd (cc)
after_nalu-first nalu first nalus out_of_fuel e = absurd (cc)

parse_nalus-first :
    (fuel : ℕ) (bytes nalu : List ℕ) (nalus : List (List ℕ))
    → parse_nalus (suc fuel) bytes ≡ done (nalu ∷ nalus)
    → (len : ℕ) × (next_length bytes ≡ some len)
      × (ltb (length (drop 4 bytes)) len ≡ false)
      × (take len (drop 4 bytes) ≡ nalu)
unfolding parse_nalus
parse_nalus-first fuel [] nalu nalus e = absurd (cc)
parse_nalus-first fuel (a ∷ []) nalu nalus e = absurd (cc)
parse_nalus-first fuel (a ∷ b ∷ []) nalu nalus e = absurd (cc)
parse_nalus-first fuel (a ∷ b ∷ c ∷ []) nalu nalus e = absurd (cc)
parse_nalus-first fuel (a ∷ b ∷ c ∷ d ∷ rest) nalu nalus e =
    let len = get_uint32 a b c d in
    elim (Bool-cases (ltb (length rest) len)) [
      | inl long ↦
          let q : ◌≡◌ {A = Ended (List (List ℕ))} failed (done (nalu ∷ nalus)) =
            rw (parse_nalus, long) at e in
          absurd (cc)
      | inr fits ↦ elim (Option-cases (get_elem? (take len rest) 0)) [
        | inl empty ↦
            let q : ◌≡◌ {A = Ended (List (List ℕ))} panicked (done (nalu ∷ nalus)) =
              rw (parse_nalus, fits, empty) at e in
            absurd (cc)
        | inr (first, f) ↦ (
          len,
          refl,
          fits,
          after_nalu-first nalu (take len rest) nalus _ (rw (parse_nalus, fits, f) at e),
        )
      ]
    ]

shown-first :
    (w n x g : ℕ) (k more buffer : List ℕ)
    → take w buffer ≡ put_uint32 x ++ (g ∷ k) ++ more
    → get_elem? (take (suc n) (drop 4 buffer)) 0 ≡ some g
shown-first w n x g k more buffer e =
    let whole : buffer ≡ (put_uint32 x ++ (g ∷ k) ++ more) ++ drop w buffer =
      sym (take-append-drop w buffer) ∙ ap (λ (l : List ℕ). l ++ drop w buffer) e in
    ap (λ (l : List ℕ). get_elem? (take (suc n) (drop 4 l)) 0) whole

done-Agrees :
    (get_nalu_type : ℕ → NaluKind) (nalus : List (List ℕ)) (call : Ended Rewriting)
    → Agrees get_nalu_type [] (done nalus) call
    → (r : Rewriting) × (call ≡ done r)
      × (take r.written r.buffer ≡ write_nalus (kept_nalus get_nalu_type nalus))
done-Agrees get_nalu_type nalus (done r) h = (r, refl, h)
done-Agrees get_nalu_type nalus failed h = absurd h
done-Agrees get_nalu_type nalus panicked h = absurd h
done-Agrees get_nalu_type nalus out_of_fuel h = absurd h

get_or-set :
    (i : ℕ) (buffers : List (List ℕ)) (b : List ℕ)
    → i < length buffers
    → get_or (set buffers i b) i [] ≡ b
get_or-set i [] b h = absurd (omega arith)
get_or-set zero (x ∷ xs) b h = refl
get_or-set (suc i) (x ∷ xs) b h = get_or-set i xs b (omega arith)

module _ (get_nalu_type : ℕ → NaluKind) (buffers : List (List ℕ)) (i : ℕ) where
  -- The first round takes the unit for a new sequence parameter set.
  sps-found :
      (fuel f : ℕ) (sps : List ℕ) (nalus : List (List ℕ)) (r last : Rewriting)
      → parse_nalus (suc fuel) r.buffer ≡ done ((f ∷ sps) ∷ nalus)
      → get_nalu_type f ≡ nalu_sps
      → is_in
          (set buffers i r.buffer)
          r.spss
          (nalu_bytes (set buffers i r.buffer) (slice i 4 (suc (length sps))))
        ≡ false
      → rewrite_loop get_nalu_type buffers i (suc fuel) 0 r ≡ done last
      → IsAmong (slice i 4 (suc (length sps))) last.spss
  unfolding rewrite_loop is_in
  sps-found fuel f sps nalus r last parse kind new e =
      let (len, next, fits, at_front) = parse_nalus-first fuel r.buffer (f ∷ sps) nalus parse in
      let whole : length (take len (drop 4 r.buffer)) ≡ suc (length sps) = ap length at_front in
      let same : len ≡ suc (length sps) = ground (arith, length-take len (drop 4 r.buffer)) in
      let found : IsAmong (slice i 4 (suc (length sps)))
          (sort_nalu get_nalu_type buffers i (get_nalu_type f) 4 len r).spss =
        rw (same, kind, append_new_nalu, new) (IsAmong-last _ r.spss) in
      let kept : FoundIn get_nalu_type buffers i (slice i 4 (suc (length sps)))
          (rewrite_loop get_nalu_type buffers i (suc fuel) 0 r) =
        rw (rewrite_loop, next, fits, at_front)
          (rewrite_loop-FoundIn get_nalu_type buffers i _ fuel (4 + len) _ found) in
      rw (e) at kept

  -- A sample that starts with a sequence parameter set that is not known yet, directly before a unit
  -- that is kept, and that parses to its end: `initHEVCData` lists the set as the slice that it was read
  -- from, and that slice, once the sample is rewritten, shows other bytes than the set's.
  pub spss-overwritten :
      (f g : ℕ) (sps k : List ℕ) (nalus : List (List ℕ)) (r : Rewriting)
      → i < length buffers
      → r.written ≡ 0
      → parse_nalus (suc (length r.buffer)) r.buffer ≡ done ((f ∷ sps) ∷ (g ∷ k) ∷ nalus)
      → get_nalu_type f ≡ nalu_sps
      → get_nalu_type g ≡ nalu_other
      → is_in
          (set buffers i r.buffer)
          r.spss
          (nalu_bytes (set buffers i r.buffer) (slice i 4 (length (f ∷ sps))))
        ≡ false
      → (last : Rewriting) × (rewrite_loop get_nalu_type buffers i (suc (length r.buffer)) 0 r
          ≡ done last)
        × (IsAmong (slice i 4 (length (f ∷ sps))) last.spss)
        × (nalu_bytes (set buffers i last.buffer) (slice i 4 (length (f ∷ sps))) ≢ (f ∷ sps))
  unfolding kept_nalus write_nalus
  spss-overwritten f g sps k nalus r inside start parse is_sps is_other new =
      let agrees =
        loop-Agrees get_nalu_type buffers i (suc (length r.buffer)) 0 [] [] r.buffer r (omega arith)
          refl start refl in
      let (last, e, shown) =
        done-Agrees get_nalu_type ((f ∷ sps) ∷ (g ∷ k) ∷ nalus)
          (rewrite_loop get_nalu_type buffers i (suc (length r.buffer)) 0 r)
          (rw (parse) at agrees) in
      let kept : take last.written last.buffer
          ≡ put_uint32 (u32 (length (g ∷ k)))
            ++ (g ∷ k)
            ++ write_nalus (kept_nalus get_nalu_type nalus) =
        shown ∙ rw (kept_nalus, is_sps, is_other) refl in
      (
        last,
        e,
        sps-found (length r.buffer) f sps ((g ∷ k) ∷ nalus) r last parse is_sps new e,
        λ same.
            let first =
              shown-first last.written (length sps) (u32 (length (g ∷ k))) g k
                (write_nalus (kept_nalus get_nalu_type nalus)) last.buffer kept in
            let now : take (suc (length sps)) (drop 4 last.buffer) ≡ f ∷ sps =
              rw (get_or-set i buffers last.buffer inside) at same in
            let read : get_elem? (take (suc (length sps)) (drop 4 last.buffer)) 0 ≡ some f =
              ap (λ (l : List ℕ). get_elem? l 0) now in
            let clash : g ≡ f = cc in
            let q : nalu_sps ≡ nalu_other = sym is_sps ∙ ap get_nalu_type (sym clash) ∙ is_other in
            absurd (cc),
      )
