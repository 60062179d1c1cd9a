-- ===== src/Media/RewriteSplit.antt =====
-- Buffers split at the offsets where the rewriting of internal/media.go reads and writes.
use mathlib.Core.List.{append_assoc}
use moqlivemock_svc.Base.{
  ℕ, ◌+◌, ◌≡◌, refl, sym, ap, ◌∙◌, List, ◌++◌, length, take, drop, arith, length-append,
  take-length-append, drop-length-append, take-append-drop, length-take, length-drop,
}
use moqlivemock_svc.Media.Rewrite.{overwrite, Rewriting, append_work, append_nalu}
use moqlivemock_svc.Nal.Frame.{put_uint32}
use moqlivemock_svc.Base.Words.{u32}

module _ {ℓ} {A : Type ℓ} where
  pub take_at : (n : ℕ) (xs ys : List A) → n ≡ length xs → take n (xs ++ ys) ≡ xs
  take_at n xs ys e = rw (e) (take-length-append xs ys)

  pub drop_at : (n : ℕ) (xs ys : List A) → n ≡ length xs → drop n (xs ++ ys) ≡ ys
  drop_at n xs ys e = rw (e) (drop-length-append xs ys)

pub overwrite_at :
    (n : ℕ) (front bytes old back : List ℕ)
    → n ≡ length front
    → length old ≡ length bytes
    → overwrite n bytes (front ++ (old ++ back)) ≡ front ++ (bytes ++ back)
overwrite_at n front bytes old back e same =
    let kept =
      drop_at (n + length bytes) (front ++ old) back (omega (arith, length-append front old)) in
    rw (take_at n front (old ++ back) e, ← append_assoc front old back, kept) refl

module _ {ℓ} {A : Type ℓ} where
  -- A front part of as many elements as `ys` has, taken from `xs` and `ys` in one.
  pub resplit :
      (n : ℕ) (xs ys : List A)
      → n ≡ length ys
      → (front back : List A) × (xs ++ ys ≡ front ++ back)
        × (length front ≡ n)
        × (length back ≡ length xs)
  resplit n xs ys e =
      let total = length-append xs ys in
      (
        take n (xs ++ ys),
        drop n (xs ++ ys),
        sym (take-append-drop n (xs ++ ys)),
        omega (arith, length-take n (xs ++ ys), e, total),
        omega (arith, length-drop n (xs ++ ys), e, total),
      )

  pub append_in_four : (a b c d : List A) → a ++ (b ++ (c ++ d)) ≡ (a ++ (b ++ c)) ++ d
  append_in_four a b c d = rw (append_assoc a (b ++ c) d, append_assoc b c d) refl

  pub append_in_two : (a b c d : List A) → a ++ (b ++ (c ++ d)) ≡ (a ++ b) ++ (c ++ d)
  append_in_two a b c d = sym (append_assoc a b (c ++ d))

-- Four bytes of length, written to the front of the gap behind which the unit stands: the unit does
-- not move yet.
work_written :
    (out gap header rest work buffer : List ℕ) (w : ℕ)
    → length header ≡ length work
    → buffer ≡ out ++ (gap ++ (header ++ rest))
    → w ≡ length out
    → (gap' : List ℕ) × (overwrite w work buffer ≡ out ++ (work ++ (gap' ++ rest)))
      × (length gap' ≡ length gap)
work_written out gap header rest work buffer w four is at_end =
    let (front, back, split, short, long) = resplit (length work) gap header (sym four) in
    let seen : buffer ≡ out ++ (front ++ (back ++ rest)) =
      is
      ∙ ap (λ (l : List ℕ). out ++ l)
          (sym (append_assoc gap header rest)
            ∙ ap (λ (l : List ℕ). l ++ rest) split
            ∙ append_assoc front back rest) in
    (
      back,
      ap (λ (l : List ℕ). overwrite w work l) seen
          ∙ overwrite_at w out work front (back ++ rest) at_end short,
      long,
    )

-- Then the unit, read behind the gap and written to its front.
unit_written :
    (out gap nalu rest buffer : List ℕ) (w at : ℕ)
    → buffer ≡ out ++ (gap ++ (nalu ++ rest))
    → w ≡ length out
    → at ≡ length out + length gap
    → (gap' : List ℕ) × (overwrite w (take (length nalu) (drop at buffer)) buffer
        ≡ (out ++ nalu) ++ (gap' ++ rest))
      × (length gap' ≡ length gap)
unit_written out gap nalu rest buffer w at is at_end behind =
    let (gap', moved, same) = work_written out gap nalu rest nalu buffer w refl is at_end in
    let read : take (length nalu) (drop at buffer) ≡ nalu =
      ap (λ (l : List ℕ). take (length nalu) (drop at l)) (is ∙ append_in_two out gap nalu rest)
      ∙ ap (λ (l : List ℕ). take (length nalu) l)
          (drop_at at (out ++ gap) (nalu ++ rest) (omega (arith, behind, length-append out gap)))
      ∙ take-length-append nalu rest in
    (gap', rw (read) (moved ∙ append_in_two out nalu gap' rest), same)

-- Four bytes of length, a unit at `at`, and what follows, behind a gap: the unit is written at the
-- front of the gap, and the gap keeps its length.
pub append-moves :
    (out gap header nalu rest : List ℕ) (at : ℕ) (r : Rewriting)
    → length header ≡ 4
    → r.buffer ≡ out ++ (gap ++ (header ++ (nalu ++ rest)))
    → r.written ≡ length out
    → at ≡ length out + length gap + 4
    → (gap' : List ℕ) × ((append_nalu at (length nalu) (append_work (length nalu) r)).buffer
        ≡ (out ++ (put_uint32 (u32 (length nalu)) ++ nalu)) ++ (gap' ++ rest))
      × (length gap' ≡ length gap)
append-moves out gap header nalu rest at r four is at_end behind =
    let work = put_uint32 (u32 (length nalu)) in
    let (gap1, first, same1) =
      work_written out gap header (nalu ++ rest) work r.buffer r.written four is at_end in
    let (gap2, second, same2) =
      unit_written (out ++ work) gap1 nalu rest (overwrite r.written work r.buffer) (r.written + 4)
        at (first ∙ append_in_two out work gap1 (nalu ++ rest))
        (omega (arith, at_end, length-append out work))
        (omega (arith, behind, same1, length-append out work)) in
    (
      gap2,
      second ∙ ap (λ (l : List ℕ). l ++ (gap2 ++ rest)) (append_assoc out work nalu),
      same2 ∙ same1,
    )
