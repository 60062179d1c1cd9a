-- ===== src/Media/Framed.antt =====
-- How a sample's bytes are units with their lengths, as `initHEVCData` of internal/media.go reads them.
use moqlivemock_svc.Base.{
  ℕ, zero, suc, ◌<◌, ◌≤◌, ◌≡◌, refl, sym, ap, inl, inr, List, [], ◌∷◌, ◌++◌, ltb, length, take,
  drop, get_elem?, some, arith, length-take, take-append-drop, Bool-cases, Option-cases,
}
use moqlivemock_svc.Nal.Frame.{get_uint32}
use moqlivemock_svc.Media.Rewrite.{Ended, done, failed, panicked, out_of_fuel}
use moqlivemock_svc.Media.RewriteKept.{parse_nalus, after_nalu}

-- The bytes are the units in their order, each behind four bytes that say its length, which is above 0,
-- and up to three bytes more.
abbrev pub IsFramed : List (List ℕ) → List ℕ → Type 0
IsFramed [] bytes = length bytes < 4
IsFramed (nalu ∷ nalus) bytes =
    (a : ℕ) × (b : ℕ) × (c : ℕ) × (d : ℕ) × (rest : List ℕ) × (bytes
      ≡ a ∷ b ∷ c ∷ d ∷ (nalu ++ rest))
    × (length nalu ≡ get_uint32 a b c d)
    × (0 < length nalu)
    × IsFramed nalus rest

after_nalu-done :
    (nalu : List ℕ) (r : Ended (List (List ℕ))) (nalus : List (List ℕ))
    → after_nalu nalu r ≡ done nalus
    → (later : List (List ℕ)) × (r ≡ done later) × (nalus ≡ nalu ∷ later)
after_nalu-done nalu (done later) nalus e = (later, refl, cc)
after_nalu-done nalu failed nalus e = absurd (cc)
after_nalu-done nalu panicked nalus e = absurd (cc)
after_nalu-done nalu out_of_fuel nalus e = absurd (cc)

some_first : (n : List ℕ) (first : ℕ) → get_elem? n 0 ≡ some first → 0 < length n
some_first [] first e = absurd (cc)
some_first (x ∷ n) first e = omega arith

IsFramed-empty :
    (nalus : List (List ℕ)) (bytes : List ℕ)
    → done [] ≡ done nalus
    → length bytes < 4
    → IsFramed nalus bytes
IsFramed-empty [] bytes e short = short
IsFramed-empty (n ∷ nalus) bytes e short = absurd (cc)

pub parse_nalus-IsFramed :
    (fuel : ℕ) (bytes : List ℕ) (nalus : List (List ℕ))
    → parse_nalus fuel bytes ≡ done nalus
    → IsFramed nalus bytes
unfolding parse_nalus
parse_nalus-IsFramed zero bytes nalus e = absurd (cc)
parse_nalus-IsFramed (suc fuel) [] nalus e = IsFramed-empty nalus [] e (omega arith)
parse_nalus-IsFramed (suc fuel) (a ∷ []) nalus e = IsFramed-empty nalus _ e (omega arith)
parse_nalus-IsFramed (suc fuel) (a ∷ b ∷ []) nalus e = IsFramed-empty nalus _ e (omega arith)
parse_nalus-IsFramed (suc fuel) (a ∷ b ∷ c ∷ []) nalus e = IsFramed-empty nalus _ e (omega arith)
parse_nalus-IsFramed (suc fuel) (a ∷ b ∷ c ∷ d ∷ rest) nalus e =
    let len = get_uint32 a b c d in
    elim (Bool-cases (ltb (length rest) len)) [
      | inl long ↦
          let q : ◌≡◌ {A = Ended (List (List ℕ))} failed (done nalus) =
            rw (parse_nalus, long) at e in
          absurd (cc)
      | inr fits ↦ elim (Option-cases (get_elem? (take len rest) 0)) [
        | inl empty ↦
            let q : ◌≡◌ {A = Ended (List (List ℕ))} panicked (done nalus) =
              rw (parse_nalus, fits, empty) at e in
            absurd (cc)
        | inr (first, at) ↦
            let (later, parsed, split) =
              after_nalu-done (take len rest) (parse_nalus fuel (drop len rest)) nalus
                (rw (parse_nalus, fits, at) at e) in
            let within : len ≤ length rest = ground arith in
            let whole : a ∷ b ∷ c ∷ d ∷ rest ≡ a ∷ b ∷ c ∷ d ∷ (take len rest ++ drop len rest) =
              ap (λ (l : List ℕ). a ∷ b ∷ c ∷ d ∷ l) (sym (take-append-drop len rest)) in
            rw (split) (
              a,
              b,
              c,
              d,
              drop len rest,
              whole,
              omega (arith, length-take len rest, within),
              some_first (take len rest) first at,
              parse_nalus-IsFramed fuel (drop len rest) later parsed,
            )
      ]
    ]
