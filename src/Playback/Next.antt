-- ===== src/Playback/Next.antt =====
-- `next_unit`: which unit it finds, and which it leaves.
use mathlib.Core.List.Memᴰ
use mathlib.Core.List.{Memᴰ}
use moqlivemock_svc.Base.{
  ℕ, ◌≤◌, ◌<◌, ◌≡◌, refl, sym, Bool, true, Option, some, List, [], ◌∷◌, arith, Option-cases,
  Bool-cases, ◌⊎◌, inl, inr, length,
}
use moqlivemock_svc.Base.Sort.{insert_sorted, sort}
use moqlivemock_svc.Playback.State.{PlaybackUnitKey, PlaybackUnit, NativePlayback}
use moqlivemock_svc.Playback.Units.{
  same_key, timestamp, unit_less, sorted_units, delete_unit, is_after, next_in, next_unit,
}

module _ {ℓ} {A : Type ℓ} (less : A → A → Bool) where
  mem-insert_sorted :
      (a x : A) (ys : List A) → Memᴰ a (insert_sorted less x ys) → (a ≡ x) ⊎ Memᴰ a ys
  unfolding insert_sorted
  mem-insert_sorted a x [] m = Memᴰ.cases_cons m
  mem-insert_sorted a x (y ∷ ys) m = elim (Bool-cases (less y x)) [
    | inl lt ↦ elim (Memᴰ.cases_cons (rw lt at m)) [
      | inl e ↦ inr (Memᴰ.head e)
      | inr later ↦ elim (mem-insert_sorted a x ys later) [
        | inl e ↦ inl e
        | inr m' ↦ inr (Memᴰ.tail m')
      ]
    ]
    | inr ge ↦ Memᴰ.cases_cons (rw ge at m)
  ]

  pub mem-sort : (a : A) (xs : List A) → Memᴰ a (sort less xs) → Memᴰ a xs
  unfolding sort
  mem-sort a [] m = m
  mem-sort a (x ∷ xs) m = elim (mem-insert_sorted a x (sort less xs) m) [
    | inl e ↦ Memᴰ.head e
    | inr m' ↦ Memᴰ.tail (mem-sort a xs m')
  ]

same_key_refl : (k : PlaybackUnitKey) → same_key k k ≡ true
same_key_refl k = ground arith

pub length-delete_unit-le :
    (k : PlaybackUnitKey) (us : List PlaybackUnit) → length (delete_unit k us) ≤ length us
unfolding delete_unit
length-delete_unit-le k [] = omega arith
length-delete_unit-le k (u ∷ us) = ground (arith, length-delete_unit-le k us)

-- Deleting the key of a pending unit takes away a unit at least.
pub length-delete_unit-lt :
    (u : PlaybackUnit) (us : List PlaybackUnit)
    → Memᴰ u us
    → length (delete_unit u.key us) < length us
unfolding delete_unit
length-delete_unit-lt u [] m = absurd (Memᴰ.not-nil m)
length-delete_unit-lt u (v ∷ us) m = elim (Memᴰ.cases_cons m) [
  | inl e ↦ rw (← e, same_key_refl) (omega (arith, length-delete_unit-le u.key us))
  | inr later ↦ ground (arith, length-delete_unit-lt u us later, length-delete_unit-le u.key us)
]

delete_unit_comm :
    (j k : PlaybackUnitKey) (us : List PlaybackUnit)
    → delete_unit j (delete_unit k us) ≡ delete_unit k (delete_unit j us)
unfolding delete_unit
delete_unit_comm j k [] = refl
delete_unit_comm j k (u ∷ us) = ground (arith, delete_unit_comm j k us)

length-next_in-le :
    (last : Option ℕ) (us pending : List PlaybackUnit)
    → length (next_in last us pending).1 ≤ length pending
unfolding next_in
length-next_in-le last [] pending = omega arith
length-next_in-le last (u ∷ us) pending = ground (
  arith,
  length-next_in-le last us pending,
  length-next_in-le last us (delete_unit u.key pending),
  length-delete_unit-le u.key pending,
)

-- The unit found is one of the list's, and its timestamp is later than the last one presented.
next_in-found :
    (last : Option ℕ) (us pending : List PlaybackUnit) (u : PlaybackUnit)
    → (next_in last us pending).0 ≡ some u
    → Memᴰ u us × ((t : ℕ) × (timestamp u ≡ some t) × (is_after last t ≡ true))
unfolding next_in
next_in-found last [] pending u e = absurd (cc)
next_in-found last (v ∷ us) pending u e = elim (Option-cases (timestamp v)) [
  | inl none_at ↦
      let (m, later) = next_in-found last us pending u (rw (none_at, next_in) at e) in
      (Memᴰ.tail m, later)
  | inr (t, at) ↦ elim (Bool-cases (is_after last t)) [
    | inl after ↦
        let same : v ≡ u = ground arith in (Memᴰ.head (sym same), (t, rw (← same) at, after))
    | inr late ↦
        let (m, later) = next_in-found last us (delete_unit v.key pending) u (ground arith) in
        (Memᴰ.tail m, later)
  ]
]

next_in-delete :
    (last : Option ℕ) (us pending : List PlaybackUnit) (k : PlaybackUnitKey)
    → length (delete_unit k (next_in last us pending).1) ≤ length (delete_unit k pending)
unfolding next_in
next_in-delete last [] pending k = omega arith
next_in-delete last (u ∷ us) pending k = ground (
  arith,
  next_in-delete last us pending k,
  next_in-delete last us (delete_unit u.key pending) k,
  delete_unit_comm k u.key pending,
  length-delete_unit-le u.key (delete_unit k pending),
)

-- `next_unit` finds a pending unit that is later than the last one presented; with it deleted, fewer
-- units are pending than before.
pub next_unit-found :
    (p : NativePlayback) (u : PlaybackUnit)
    → (next_unit p).0 ≡ some u
    → Memᴰ u p.pending
      × ((t : ℕ) × (timestamp u ≡ some t) × (is_after p.last_presented t ≡ true))
      × (length (delete_unit u.key (next_unit p).1.pending) < length p.pending)
unfolding next_unit sorted_units
next_unit-found p u e =
    let (m, later) = next_in-found p.last_presented (sorted_units p.pending) p.pending u e in
    let m' = mem-sort unit_less u p.pending m in
    (
      m',
      later,
      omega (
        arith,
        next_in-delete p.last_presented (sorted_units p.pending) p.pending u.key,
        length-delete_unit-lt u p.pending m',
      ),
    )
