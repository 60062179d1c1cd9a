-- ===== src/Asset/Loading.antt =====
-- What `InitContentTrack` of internal/asset.go guarantees of a track that it returns.
use moqlivemock_svc.Base.{
  ℕ, zero, suc, ◌+◌, ◌-◌, ◌*◌, ◌<◌, ◌≡◌, true, false, Option, none, some, List, [], ◌∷◌, ◌==◌,
  length, get_elem?, arith, Bool-cases, inl, inr,
}
use moqlivemock_svc.Base.Words.{u32}
use moqlivemock_svc.Asset.Types.{FullSample}
use moqlivemock_svc.Asset.Load.{gop_loop, gop_length_of}

-- A length that is set stays.
gop_loop-same :
    (i last_sync gop_length : ℕ) (samples : List FullSample) (gop : ℕ)
    → (gop_length == 0) ≡ false
    → gop_loop i last_sync gop_length samples ≡ some gop
    → gop_length ≡ gop
unfolding gop_loop
gop_loop-same i last g [] gop h e = cc
gop_loop-same i last g (s ∷ rest) gop h e = elim (Bool-cases s.sync) [
  | inr off ↦ gop_loop-same (suc i) last g rest gop h (rw (gop_loop, off) at e)
  | inl on ↦ elim (Bool-cases (g == u32 (i - last))) [
    | inl same ↦ gop_loop-same (suc i) i g rest gop h (rw (gop_loop, on, h, same) at e)
    | inr other ↦
        let q : ◌≡◌ {A = Option ℕ} none (some gop) = rw (gop_loop, on, h, other) at e in absurd (cc)
  ]
]

-- Every sync sample stands at a multiple of the length that the loop returns.
abbrev pub IsAtMultiple : ℕ → ℕ → List FullSample → Type 0
IsAtMultiple gop i samples =
    (j : ℕ) (s : FullSample)
    → get_elem? samples j ≡ some s
    → s.sync ≡ true
    → (k : ℕ) × (i + j ≡ k * gop)

IsAtMultiple-cons :
    (gop i : ℕ) (s : FullSample) (rest : List FullSample)
    → (s.sync ≡ true → (k : ℕ) × (i ≡ k * gop))
    → IsAtMultiple gop (suc i) rest
    → IsAtMultiple gop i (s ∷ rest)
IsAtMultiple-cons gop i s rest here later zero t at sync =
    let same : s ≡ t = cc in let (k, e) = here (rw (same) sync) in (k, omega (arith, e))
IsAtMultiple-cons gop i s rest here later (suc j) t at sync =
    let (k, e) = later j t at sync in (k, omega (arith, e))

gop_loop-IsAtMultiple :
    (i last_sync gop_length : ℕ) (samples : List FullSample) (gop k : ℕ)
    → last_sync ≡ k * gop_length
    → last_sync < i
    → i + length samples < 4294967296
    → gop_loop i last_sync gop_length samples ≡ some gop
    → IsAtMultiple gop i samples
unfolding gop_loop
gop_loop-IsAtMultiple i last g [] gop k at below fits e = λ j s h. absurd (cc)
gop_loop-IsAtMultiple i last g (s ∷ rest) gop k at below fits e = elim (Bool-cases s.sync) [
  | inr off ↦
      IsAtMultiple-cons gop i s rest (λ on. absurd (cc))
        (gop_loop-IsAtMultiple (suc i) last g rest gop k at (omega arith) (omega arith)
          (rw (gop_loop, off) at e))
  | inl on ↦ elim (Bool-cases (g == 0)) [
    | inl unset ↦
        let none_yet : g ≡ 0 = ground arith in
        let start : last ≡ 0 = grind (arith, at, none_yet) in
        let len : u32 (i - last) ≡ i = omega (arith, start, fits) in
        let next : gop_loop (suc i) i i rest ≡ some gop =
          rw (len) at (rw (gop_loop, on, unset) at e) in
        let same = gop_loop-same (suc i) i i rest gop (ground (arith, below)) next in
        IsAtMultiple-cons gop i s rest (λ h. (1, omega (arith, same)))
          (gop_loop-IsAtMultiple (suc i) i i rest gop 1 (omega arith) (omega arith) (omega arith)
            next)
    | inr set ↦ elim (Bool-cases (g == u32 (i - last))) [
      | inr other ↦
          let q : ◌≡◌ {A = Option ℕ} none (some gop) = rw (gop_loop, on, set, other) at e in
          absurd (cc)
      | inl same ↦
          let next : gop_loop (suc i) i g rest ≡ some gop = rw (gop_loop, on, set, same) at e in
          let step : g ≡ i - last = ground (arith, fits) in
          let multiple : i ≡ suc k * g = grind (arith, step, at, below) in
          let kept = gop_loop-same (suc i) i g rest gop set next in
          IsAtMultiple-cons gop i s rest (λ h. (suc k, rw (← kept) multiple))
            (gop_loop-IsAtMultiple (suc i) i g rest gop (suc k) multiple (omega arith) (omega arith)
              next)
    ]
  ]
]

-- Of fewer than 2^32 samples of which the first is a sync sample: when a GOP length is found without an
-- error, every sync sample stands at a multiple of it.
pub gop_length_of-IsAtMultiple :
    (samples : List FullSample) (gop : ℕ) (first : FullSample)
    → length samples < 4294967296
    → gop_length_of samples ≡ some (some gop)
    → get_elem? samples 0 ≡ some first
    → first.sync ≡ true
    → IsAtMultiple gop 0 samples
unfolding gop_length_of
gop_length_of-IsAtMultiple [] gop first few e at sync = absurd (cc)
gop_length_of-IsAtMultiple (s ∷ rest) gop first few e at sync =
    let same : s ≡ first = cc in
    let on : s.sync ≡ true = rw (same) sync in
    let runs : gop_loop 1 0 0 rest ≡ some gop = cc (rw (gop_length_of, on) at e) in
    IsAtMultiple-cons gop 0 s rest (λ h. (0, omega arith))
      (gop_loop-IsAtMultiple 1 0 0 rest gop 0 (omega arith) (omega arith) (omega arith) runs)
