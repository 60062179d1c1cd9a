-- ===== src/Subscribe/Retrieved.antt =====
-- What the subscriber of internal/sub/sub.go holds once `handle` has its catalog.
use moqlivemock_svc.Base.{
  ℕ, ◌≡◌, refl, ◌∙◌, ◌⊎◌, inl, inr, Bool, true, false, ◌&&◌, Option, List, [], ◌∷◌, String, str_eq,
  eq_iff, Bool-cases, Option-cases, arith,
}
use moqlivemock_svc.Catalog.Types.{Catalog}
use moqlivemock_svc.Publish.Location.{Location}
use moqlivemock_svc.Subscribe.Retrieve.{
  read_object, read_eof, Answers, Holder, Retrieved, retrieved, not_retrieved, panicked, is_none,
  put, logged_out, joining_catalog, written_out, subscribe_to_catalog, fetch_catalog, mode_of,
  retrieve,
}
use moqlivemock_svc.Subscribe.Joining.{
  Read-cases, Holds, OnlyHolds-Holds, joining_catalog-OnlyHolds,
}

module _ (unmarshal : List ℕ → Option Catalog)
    (unmarshal_into : Option Catalog → List ℕ → Option Catalog × Bool)
    (marshal : Option Catalog → Option (List ℕ)) (has_output logs_info : Bool)
    (takes : List ℕ → Bool) where
  -- The request succeeds and the first read is io.EOF, which leaves the handler as it was.
  abbrev pub IsSilent : Answers → Holder → Holder → Type 0
  IsSilent a h next = (a.request_ok ≡ true) × (a.first_read ≡ read_eof) × (next ≡ h)

  -- The handler holds what the first object makes of the pointer that was there, without an error: nil
  -- only where slog's Info level is off.
  abbrev pub HoldsInto : Answers → Holder → Holder → Type 0
  HoldsInto a h next =
      (location : Location) × (payload : List ℕ) × (a.first_read ≡ read_object location payload)
      × (next.catalog ≡ (unmarshal_into h.catalog payload).0)
      × ((unmarshal_into h.catalog payload).1 ≡ true)
      × ((logs_info && is_none next.catalog) ≡ false)

  abbrev HoldsIf : Answers → Holder → Retrieved → Type 0
  HoldsIf a h (retrieved next) = HoldsInto a h next ⊎ IsSilent a h next
  HoldsIf a h (not_retrieved next) = Unit
  HoldsIf a h panicked = Unit

  put-catalog :
      (bytes : List ℕ) (h : Holder)
      → (put unmarshal unmarshal_into marshal has_output logs_info takes bytes h).catalog
        ≡ h.catalog
  put-catalog bytes h = ground arith

  written_out-catalog :
      (cat : Option Catalog) (h : Holder)
      → (written_out unmarshal unmarshal_into marshal has_output logs_info takes cat h).catalog
        ≡ h.catalog
  written_out-catalog cat h = elim (Bool-cases has_output) [
    | inr off ↦ rw (written_out, off) refl
    | inl on ↦ elim (Option-cases (marshal cat)) [
      | inl e ↦ rw (written_out, on, e) refl
      | inr (text, e) ↦
          rw (written_out, on, e)
            (put-catalog (10 ∷ [])
                (put unmarshal unmarshal_into marshal has_output logs_info takes text h)
              ∙ put-catalog text h)
    ]
  ]

  logged_out-HoldsIf :
      (a : Answers) (h : Holder) (location : Location) (payload : List ℕ)
      → a.first_read ≡ read_object location payload
      → (unmarshal_into h.catalog payload).1 ≡ true
      → HoldsIf a h (
          logged_out unmarshal unmarshal_into marshal has_output logs_info takes
            (unmarshal_into h.catalog payload).0
            h)
  logged_out-HoldsIf a h location payload e good =
      let cat = (unmarshal_into h.catalog payload).0 in
      elim (Bool-cases (logs_info && is_none cat)) [
        | inl nil ↦ rw (HoldsIf, logged_out, nil) tt
        | inr held ↦
            let kept = written_out-catalog cat (record h { catalog = cat }) in
            rw (HoldsIf, logged_out, held) (inl (location, payload, e, kept, good, rw (kept) held))
      ]

  subscribe_to_catalog-HoldsIf :
      (a : Answers) (h : Holder)
      → HoldsIf a h
          (subscribe_to_catalog unmarshal unmarshal_into marshal has_output logs_info takes a h)
  unfolding subscribe_to_catalog
  subscribe_to_catalog-HoldsIf a h = elim (Bool-cases a.request_ok) [
    | inr refused ↦ rw (subscribe_to_catalog, refused) tt
    | inl asked ↦ elim (Read-cases a.first_read) [
      | inl (inl e) ↦
          let q : subscribe_to_catalog unmarshal unmarshal_into marshal has_output logs_info takes a
                h
              ≡ retrieved h =
            simp (subscribe_to_catalog, asked, e) in
          rw (q) (inr (asked, e, refl))
      | inl (inr e) ↦ simp (subscribe_to_catalog, asked, e) tt
      | inr (location, payload, e) ↦
          let cat = (unmarshal_into h.catalog payload).0 in
          elim (Bool-cases (unmarshal_into h.catalog payload).1) [
            | inr bad ↦ simp (subscribe_to_catalog, asked, e, bad) tt
            | inl good ↦
                let q : subscribe_to_catalog unmarshal unmarshal_into marshal has_output logs_info
                      takes a h
                    ≡ logged_out unmarshal unmarshal_into marshal has_output logs_info takes cat h =
                  simp (subscribe_to_catalog, asked, e, good) in
                rw (q) (logged_out-HoldsIf a h location payload e good)
          ]
    ]
  ]

  fetch_catalog-HoldsIf :
      (a : Answers) (h : Holder)
      → HoldsIf a h (fetch_catalog unmarshal unmarshal_into marshal has_output logs_info takes a h)
  unfolding fetch_catalog
  fetch_catalog-HoldsIf a h = elim (Bool-cases a.request_ok) [
    | inr refused ↦ rw (fetch_catalog, refused) tt
    | inl asked ↦ elim (Read-cases a.first_read) [
      | inl (inl e) ↦
          let q : fetch_catalog unmarshal unmarshal_into marshal has_output logs_info takes a h
              ≡ retrieved h =
            simp (fetch_catalog, asked, e) in
          rw (q) (inr (asked, e, refl))
      | inl (inr e) ↦ simp (fetch_catalog, asked, e) tt
      | inr (location, payload, e) ↦
          let cat = (unmarshal_into h.catalog payload).0 in
          elim (Bool-cases (unmarshal_into h.catalog payload).1) [
            | inr bad ↦ simp (fetch_catalog, asked, e, bad) tt
            | inl good ↦
                let q : fetch_catalog unmarshal unmarshal_into marshal has_output logs_info takes a
                      h
                    ≡ logged_out unmarshal unmarshal_into marshal has_output logs_info takes cat h =
                  simp (fetch_catalog, asked, e, good) in
                rw (q) (logged_out-HoldsIf a h location payload e good)
          ]
    ]
  ]

  HoldsIf-retrieved :
      (a : Answers) (h next : Holder) (r : Retrieved)
      → r ≡ retrieved next
      → HoldsIf a h r
      → HoldsInto a h next ⊎ IsSilent a h next
  HoldsIf-retrieved a h next (retrieved other) e holds =
      let same : other ≡ next = cc in rw (← same) holds
  HoldsIf-retrieved a h next (not_retrieved other) e holds = absurd (cc)
  HoldsIf-retrieved a h next panicked e holds = absurd (cc)

  -- The mode is one of those that read into the pointer.
  abbrev pub ReadsInto : String → Type 0
  ReadsInto mode = (mode ≡ "subscribe") ⊎ (mode ≡ "fetch")

  -- When `handle` gets no error from the retrieval of the catalog, whatever the answers, the mode is
  -- one of the three. In the joining mode it holds the catalog that the first object parses to. In the
  -- modes subscribe and fetch it holds what json.Unmarshal makes of the pointer that was there and the
  -- first object, without an error, which is nil only if slog's Info level is off; or the request
  -- succeeds, the first read is io.EOF, and it holds what it held before. This last case does give no
  -- error.
  pub retrieve-Holds :
      (use_fetch : Bool) (catalog_mode : String) (a : Answers) (h : Holder)
      → let mode =
          mode_of unmarshal unmarshal_into marshal has_output logs_info takes use_fetch
            catalog_mode in
        ((next : Holder)
          → retrieve unmarshal unmarshal_into marshal has_output logs_info takes use_fetch
              catalog_mode a h
            ≡ retrieved next
          → ((mode ≡ "joining")
              × Holds unmarshal unmarshal_into marshal has_output logs_info takes a next)
            ⊎ (ReadsInto mode × (HoldsInto a h next ⊎ IsSilent a h next)))
        × (ReadsInto mode
            → IsSilent a h h
            → retrieve unmarshal unmarshal_into marshal has_output logs_info takes use_fetch
                catalog_mode a h
              ≡ retrieved h)
  unfolding retrieve subscribe_to_catalog fetch_catalog
  retrieve-Holds use_fetch catalog_mode a h =
      let mode =
        mode_of unmarshal unmarshal_into marshal has_output logs_info takes use_fetch
          catalog_mode in
      (
        λ next e. elim (Bool-cases (str_eq mode "joining")) [
          | inl joining ↦ inl (
            (eq_iff mode "joining").0 joining,
            OnlyHolds-Holds unmarshal unmarshal_into marshal has_output logs_info takes a next
                (joining_catalog unmarshal unmarshal_into marshal has_output logs_info takes a h)
                (rw (retrieve, joining) at e)
                (joining_catalog-OnlyHolds unmarshal unmarshal_into marshal has_output logs_info
                  takes a h),
          )
          | inr not_joining ↦ elim (Bool-cases (str_eq mode "subscribe")) [
            | inl subscribe ↦ inr (
              inl ((eq_iff mode "subscribe").0 subscribe),
              HoldsIf-retrieved a h next
                  (subscribe_to_catalog unmarshal unmarshal_into marshal has_output logs_info takes
                    a h)
                  (rw (retrieve, not_joining, subscribe) at e) (subscribe_to_catalog-HoldsIf a h),
            )
            | inr not_subscribe ↦ elim (Bool-cases (str_eq mode "fetch")) [
              | inl fetch ↦ inr (
                inr ((eq_iff mode "fetch").0 fetch),
                HoldsIf-retrieved a h next
                    (fetch_catalog unmarshal unmarshal_into marshal has_output logs_info takes a h)
                    (rw (retrieve, not_joining, not_subscribe, fetch) at e)
                    (fetch_catalog-HoldsIf a h),
              )
              | inr other ↦
                  let q : not_retrieved h ≡ retrieved next =
                    rw (retrieve, not_joining, not_subscribe, other) at e in
                  absurd (cc)
            ]
          ]
        ],
        λ kind silent.
            let (asked, eof, kept) = silent in
            elim kind [
              | inl subscribe ↦ simp (retrieve, subscribe, subscribe_to_catalog, asked, eof)
              | inr fetch ↦ simp (retrieve, fetch, fetch_catalog, asked, eof)
            ],
      )
