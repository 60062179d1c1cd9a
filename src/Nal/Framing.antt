-- ===== src/Nal/Framing.antt =====
-- The subscriber's AnnexB writer on what the publisher's framing makes.
use moqlivemock_svc.Base.{
  ℕ, zero, suc, ◌+◌, ◌/◌, ◌%◌, ◌<◌, ◌≡◌, refl, false, Option, none, List, [], ◌∷◌, ◌++◌, ltb,
  length, drop, arith, length-append, length-drop, take-length-append, drop-length-append,
  Bool-cases, Option-cases, inl, inr,
}
use moqlivemock_svc.Base.Words.{u32}
use moqlivemock_svc.Nal.Frame.{
  get_uint32, write_nalus, start_code, finished, out_of_fuel, write_loop, write_loc_video,
}

-- The same units with start codes.
abbrev pub annex_b : List (List ℕ) → List ℕ
annex_b [] = []
annex_b (n ∷ nalus) = start_code ++ n ++ annex_b nalus

-- Lengths that fit a uint32.
abbrev pub AllFit : List (List ℕ) → Type 0
AllFit [] = Unit
AllFit (n ∷ nalus) = (length n < 4294967296) × AllFit nalus

-- An output whose writes all succeed.
abbrev pub NeverFails : (ℕ → Option ℕ) → Type 0
NeverFails w = (k : ℕ) → w k ≡ none

get-put_uint32 :
    (n : ℕ)
    → n < 4294967296
    → get_uint32 (u32 n / 16777216 % 256) (u32 n / 65536 % 256) (u32 n / 256 % 256) (u32 n % 256)
      ≡ n
get-put_uint32 n h = omega arith

write_loop-write_nalus :
    (w : ℕ → Option ℕ) (fuel k : ℕ) (nalus : List (List ℕ))
    → NeverFails w
    → AllFit nalus
    → length (write_nalus nalus) < fuel
    → write_loop w fuel k (write_nalus nalus) ≡ (annex_b nalus, finished)
unfolding write_nalus write_loop
write_loop-write_nalus w zero k nalus works fit h = absurd (omega arith)
write_loop-write_nalus w (suc fuel) k [] works fit h = refl
write_loop-write_nalus w (suc fuel) k (n ∷ nalus) works (fit, fits) h =
    let read = get-put_uint32 (length n) fit in
    let len = length-append n (write_nalus nalus) in
    let room : ltb (length (n ++ write_nalus nalus)) (length n) ≡ false = ground (arith, len) in
    let rest = write_loop-write_nalus w fuel (k + 2) nalus works fits (omega (arith, len)) in
    rw
      (
        write_loop,
        read,
        room,
        works k,
        works (k + 1),
        read,
        take-length-append n (write_nalus nalus),
        drop-length-append n (write_nalus nalus),
        rest,
      )
      refl

-- What the publisher frames with 4-byte lengths, of units that fit them, the subscriber's writer turns into the same units
-- with start codes, without an error, when every write of its output succeeds.
pub write_loc_video-write_nalus :
    (w : ℕ → Option ℕ) (nalus : List (List ℕ))
    → NeverFails w
    → AllFit nalus
    → write_loc_video w (write_nalus nalus) ≡ (annex_b nalus, finished)
write_loc_video-write_nalus w nalus works fit =
    write_loop-write_nalus w _ 0 nalus works fit (omega arith)

-- The writer ends on any payload: the bytes left shrink in every round.
write_loop-total :
    (w : ℕ → Option ℕ) (fuel k : ℕ) (bytes : List ℕ)
    → length bytes < fuel
    → ¬ ((write_loop w fuel k bytes).1 ≡ out_of_fuel)
unfolding write_loop
write_loop-total w zero k bytes h = absurd (omega arith)
write_loop-total w (suc fuel) k [] h = λ e. absurd (cc)
write_loop-total w (suc fuel) k (a ∷ []) h = λ e. absurd (cc)
write_loop-total w (suc fuel) k (a ∷ b ∷ []) h = λ e. absurd (cc)
write_loop-total w (suc fuel) k (a ∷ b ∷ c ∷ []) h = λ e. absurd (cc)
write_loop-total w (suc fuel) k (a ∷ b ∷ c ∷ d ∷ rest) h =
    let len = get_uint32 a b c d in
    let shorter = length-drop len rest in
    let later = write_loop-total w fuel (k + 2) (drop len rest) (omega (arith, shorter)) in
    elim (Bool-cases (ltb (length rest) len)) [
      | inl long ↦ rw (write_loop, long) (λ e. absurd (cc))
      | inr fits ↦ elim (Option-cases (w k)) [
        | inr (n, refused) ↦ rw (write_loop, fits, refused) (λ e. absurd (cc))
        | inl taken ↦ elim (Option-cases (w (k + 1))) [
          | inr (n, refused) ↦ rw (write_loop, fits, taken, refused) (λ e. absurd (cc))
          | inl also ↦ rw (write_loop, fits, taken, also) later
        ]
      ]
    ]

-- On any payload and with any output the writer ends, by writing it all or with an error, that of
-- the output or that of a length that exceeds the payload: the fuel, one more than the payload's
-- length, never runs out.
pub write_loc_video-total :
    (w : ℕ → Option ℕ) (payload : List ℕ) → ¬ ((write_loc_video w payload).1 ≡ out_of_fuel)
write_loc_video-total w payload = write_loop-total w (suc (length payload)) 0 payload (omega arith)
