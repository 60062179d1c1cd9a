-- ===== src/Playback/Flags.antt =====
-- The flags `p.valid` as a row of true flags followed by false ones.
use moqlivemock_svc.Base.{
  ℕ, zero, suc, ◌≤◌, ◌≡◌, refl, ap, ◌∙◌, Bool, true, false, List, [], ◌∷◌, arith, ltb, length,
  get_or,
}
use moqlivemock_svc.Playback.Advance.{clear_from, set_below, lower_active}

-- `n` flags, the first `a` of them true.
abbrev pub flags : ℕ → ℕ → List Bool
flags a zero = []
flags zero (suc n) = false ∷ flags zero n
flags (suc a) (suc n) = true ∷ flags a n

pub length-flags : (a n : ℕ) → length (flags a n) ≡ n
length-flags a zero = refl
length-flags zero (suc n) = ap suc (length-flags zero n)
length-flags (suc a) (suc n) = ap suc (length-flags a n)

pub clear_from-flags : (k a n : ℕ) → k ≤ a → clear_from k (flags a n) ≡ flags k n
unfolding clear_from
clear_from-flags k a zero h = refl
clear_from-flags zero zero (suc n) h = ap (λ vs. false ∷ vs) (clear_from-flags zero zero n h)
clear_from-flags zero (suc a) (suc n) h =
    ap (λ vs. false ∷ vs) (clear_from-flags zero a n (omega arith))
clear_from-flags (suc k) zero (suc n) h = absurd (omega arith)
clear_from-flags (suc k) (suc a) (suc n) h =
    ap (λ vs. true ∷ vs) (clear_from-flags k a n (omega arith))

pub set_below-flags : (k a n : ℕ) → a ≤ k → k ≤ n → set_below k (flags a n) ≡ flags k n
unfolding set_below
set_below-flags zero zero n h g = refl
set_below-flags zero (suc a) n h g = absurd (omega arith)
set_below-flags (suc k) a zero h g = absurd (omega arith)
set_below-flags (suc k) zero (suc n) h g =
    ap (λ vs. true ∷ vs) (set_below-flags k zero n (omega arith) (omega arith))
set_below-flags (suc k) (suc a) (suc n) h g =
    ap (λ vs. true ∷ vs) (set_below-flags k a n (omega arith) (omega arith))

get_or-flags : (a n i : ℕ) → a ≤ n → get_or (flags a n) i false ≡ ltb i a
get_or-flags zero zero i h = ground arith
get_or-flags zero (suc n) zero h = refl
get_or-flags zero (suc n) (suc i) h = get_or-flags zero n i (omega arith) ∙ ground arith
get_or-flags (suc a) (suc n) zero h = ground arith
get_or-flags (suc a) (suc n) (suc i) h = get_or-flags a n i (omega arith) ∙ ground arith
get_or-flags (suc a) zero i h = absurd (omega arith)

pub lower_active-flags : (b k m n : ℕ) → m ≤ b → m ≤ k → m ≤ n → lower_active b k (flags m n) ≡ m
unfolding lower_active
lower_active-flags zero k m n h₀ h₁ h₂ = omega arith
lower_active-flags (suc b) k m n h₀ h₁ h₂ =
    ground (arith, get_or-flags m n b h₂, lower_active-flags b k m n)
