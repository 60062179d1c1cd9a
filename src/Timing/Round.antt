-- ===== src/Timing/Round.antt =====
-- Division that rounds down and up, by a variable.
use native.Mathlib.Nat.{div-add-mod, mod-lt}
use moqlivemock_svc.Base.{
  ℕ, ◌+◌, ◌*◌, ◌/◌, ◌%◌, ◌≤◌, ◌<◌, ◌≡◌, ◌↔◌, arith, ◌==◌, if◌then◌else◌, Bool-cases, ==_iff, ◌⊎◌,
  inl, inr,
}

pub mul_mono : (a b c : ℕ) → a ≤ b → a * c ≤ b * c
mul_mono a b c h = grind arith

pub le_cases : (a b : ℕ) → (a ≤ b) ⊎ (b < a)
le_cases a b = omega arith

-- A number times the divisor, and the next one, lie around `m` just if the number is the quotient.
pub quotient_iff : (q m k : ℕ) → 0 < k → ((q * k ≤ m) × (m < (q + 1) * k)) ↔ (q ≡ m / k)
quotient_iff q m k h = (
  λ (lo, hi). elim (le_cases q (m / k)) [
    | inl le ↦ elim (le_cases (m / k) q) [
      | inl ge ↦ omega arith
      | inr less ↦
          absurd
            (omega (arith, mul_mono (q + 1) (m / k) k (omega arith), div-add-mod m k, mod-lt m h))
    ]
    | inr less ↦
        absurd (omega (arith, mul_mono (m / k + 1) q k (omega arith), div-add-mod m k, mod-lt m h))
  ],
  λ e.
      rw e (omega (arith, div-add-mod m k, mod-lt m h), omega (arith, div-add-mod m k, mod-lt m h)),
)

-- The division rounded up.
abbrev pub ceil_div : ℕ → ℕ → ℕ
ceil_div time d = if time % d == 0 then time / d else time / d + 1

pub ceil_div-le : (time d i : ℕ) → 0 < d → (ceil_div time d ≤ i) ↔ (time ≤ i * d)
ceil_div-le time d i h =
    let split = div-add-mod time d in
    let small = mod-lt time h in
    elim (Bool-cases (time % d == 0)) [
      | inl exact ↦ rw exact (
        λ le. omega (arith, mul_mono (time / d) i d le, split, (==_iff (time % d) 0).0 exact),
        λ le. elim (le_cases (time / d) i) [
          | inl done ↦ done
          | inr less ↦ absurd (omega (arith, mul_mono (i + 1) (time / d) d (omega arith), split))
        ],
      )
      | inr over ↦ rw over (
        λ le. omega (arith, mul_mono (time / d + 1) i d le, split, small),
        λ le. elim (le_cases (time / d + 1) i) [
          | inl done ↦ done
          | inr less ↦
              let rest : 0 < time % d = ground (arith, over) in
              absurd (omega (arith, mul_mono i (time / d) d (omega arith), split, rest))
        ],
      )
    ]

pub div-le : (a d : ℕ) → 0 < d → a / d ≤ a
div-le a d h = elim (le_cases (a / d) a) [
  | inl done ↦ done
  | inr less ↦ absurd (omega (arith, mul_mono 1 d (a / d) h, div-add-mod a d))
]

pub quotient_mono : (a b d : ℕ) → 0 < d → a ≤ b → a / d ≤ b / d
quotient_mono a b d h le = elim (le_cases (a / d) (b / d)) [
  | inl done ↦ done
  | inr less ↦ absurd (
      omega (
        arith,
        mul_mono (b / d + 1) (a / d) d (omega (arith, less)),
        div-add-mod a d,
        div-add-mod b d,
        mod-lt b h,
      ))
]
