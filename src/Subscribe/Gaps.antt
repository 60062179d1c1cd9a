-- ===== src/Subscribe/Gaps.antt =====
-- The sequence numbers that the subscriber of internal/sub/moqmi.go counts.
use moqlivemock_svc.Base.{
  ℕ, ◌+◌, ◌%◌, ◌≡◌, ◌<◌, refl, Bool, true, Option, none, some, List, [], ◌∷◌, Bool-cases,
  Option-cases, inl, inr, arith,
}
use moqlivemock_svc.Loc.Marking.{KeyValuePair}
use moqlivemock_svc.Subscribe.Moqmi.{
  SeqState, seq_delta, MediaType, is_counted, log_moqmi_object, MoqmiRead, add_gap, add_payload,
  read_moqmi,
}

unfoldable pub sum : List ℕ → ℕ
sum [] = 0
sum (gap ∷ gaps) = gap + sum gaps

module _ (media_type : List KeyValuePair → Option MediaType)
    (seq_id : MediaType → List KeyValuePair → Option ℕ) where
  abbrev gap_of : Option ℕ → ℕ
  gap_of none = 0
  gap_of (some gap) = gap

  -- The counter has a number of 64 bits from a first object on.
  abbrev Counts : SeqState → Type 0
  Counts s = (s.have_seq ≡ true) × (s.last_seq < 18446744073709551616)

  log_moqmi_object-adds :
      (headers : List KeyValuePair) (s : SeqState)
      → ((mt : MediaType) (seq : ℕ) → seq_id mt headers ≡ some seq → seq < 18446744073709551616)
      → Counts s
      → Counts (log_moqmi_object media_type seq_id headers s).1
        × ((log_moqmi_object media_type seq_id headers s).1.last_seq
            ≡ (s.last_seq + gap_of (log_moqmi_object media_type seq_id headers s).0)
              % 18446744073709551616)
  unfolding log_moqmi_object seq_delta
  log_moqmi_object-adds headers s small (have, fits) = elim (Option-cases (media_type headers)) [
    | inl e ↦ rw (log_moqmi_object, e) ((have, fits), omega (arith, fits))
    | inr (mt, e) ↦ elim (Bool-cases (is_counted mt)) [
      | inr other ↦ rw (log_moqmi_object, e, other) ((have, fits), omega (arith, fits))
      | inl counted ↦ elim (Option-cases (seq_id mt headers)) [
        | inl bad ↦ rw (log_moqmi_object, e, counted, bad) ((have, fits), omega (arith, fits))
        | inr (seq, good) ↦
            let below = small mt seq good in
            rw (log_moqmi_object, e, counted, good, seq_delta, have)
              ((refl, below), omega (arith, fits, below))
      ]
    ]
  ]

  add_gap-adds :
      (gap : Option ℕ) (before between : ℕ) (r : MoqmiRead media_type seq_id)
      → between ≡ (before + gap_of gap) % 18446744073709551616
      → r.counter.last_seq ≡ (between + sum r.gaps) % 18446744073709551616
      → (add_gap media_type seq_id gap r).counter.last_seq
        ≡ (before + sum (add_gap media_type seq_id gap r).gaps) % 18446744073709551616
  unfolding sum
  add_gap-adds none before between r first later = omega (arith, first, later)
  add_gap-adds (some gap) before between r first later = omega (arith, first, later)

  -- The counter at the end is the one at the start, which has a number, and the gaps that are logged,
  -- added as 64-bit numbers: whatever the objects hold, and also when a write fails on the way. Sequence
  -- numbers are read as 64-bit numbers.
  read_moqmi-gaps :
      (has_out : Bool) (takes : List ℕ → Bool) (objects : List (List KeyValuePair × List ℕ))
      (s : SeqState)
      → ((mt : MediaType) (headers : List KeyValuePair) (seq : ℕ)
          → seq_id mt headers ≡ some seq
          → seq < 18446744073709551616)
      → Counts s
      → (read_moqmi media_type seq_id has_out takes s objects).counter.last_seq
        ≡ (s.last_seq + sum (read_moqmi media_type seq_id has_out takes s objects).gaps)
          % 18446744073709551616
  unfolding read_moqmi sum
  read_moqmi-gaps has_out takes [] s small (have, fits) = omega (arith, fits)
  read_moqmi-gaps has_out takes ((headers, payload) ∷ objects) s small counts =
      let one = log_moqmi_object-adds headers s (λ mt seq. small mt headers seq) counts in
      let logged = log_moqmi_object media_type seq_id headers s in
      let later = read_moqmi-gaps has_out takes objects logged.1 small one.0 in
      let rest = read_moqmi media_type seq_id has_out takes logged.1 objects in
      let ends : MoqmiRead media_type seq_id = record {
        gaps = [];
        written = [];
        counter = logged.1;
      } in
      let ended : logged.1.last_seq ≡ (logged.1.last_seq + 0) % 18446744073709551616 =
        omega (arith, one.0.1) in
      elim (Bool-cases has_out) [
        | inr off ↦ rw (read_moqmi, off) (add_gap-adds logged.0 s.last_seq _ rest one.1 later)
        | inl on ↦ elim (Bool-cases (takes payload)) [
          | inl taken ↦
              rw (read_moqmi, on, taken)
                (add_gap-adds logged.0 s.last_seq _ (add_payload media_type seq_id payload rest)
                  one.1 later)
          | inr refused ↦
              rw (read_moqmi, on, refused) (add_gap-adds logged.0 s.last_seq _ ends one.1 ended)
        ]
      ]
