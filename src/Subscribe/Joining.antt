-- ===== src/Subscribe/Joining.antt =====
-- What the joining mode of internal/sub/sub.go leaves, by `applyCatalog` and `joiningCatalog`.
use moqlivemock_svc.Base.{
  ℕ, ◌≡◌, refl, ◌⊎◌, inl, inr, Bool, Option, some, List, [], ◌∷◌, ◌++◌, Bool-cases, Option-cases,
}
use moqlivemock_svc.Catalog.Types.{Catalog}
use moqlivemock_svc.Publish.Location.{Location}
use moqlivemock_svc.Subscribe.Retrieve.{
  Read, read_object, read_eof, read_failed, Answers, Holder, Retrieved, retrieved, not_retrieved,
  panicked, apply_catalog, joining_catalog,
}

pub Read-cases :
    (r : Read)
    → ((r ≡ read_eof) ⊎ (r ≡ read_failed))
      ⊎ ((location : Location) × (payload : List ℕ) × (r ≡ read_object location payload))
Read-cases (read_object location payload) = inr (location, payload, refl)
Read-cases read_eof = inl (inl refl)
Read-cases read_failed = inl (inr refl)

module _ (unmarshal : List ℕ → Option Catalog)
    (unmarshal_into : Option Catalog → List ℕ → Option Catalog × Bool)
    (marshal : Option Catalog → Option (List ℕ)) (has_output logs_info : Bool)
    (takes : List ℕ → Bool) where
  -- The handler holds the catalog that the first object parses to.
  abbrev pub Holds : Answers → Holder → Type 0
  Holds a h =
      (location : Location) × (payload : List ℕ) × (cat : Catalog) × (a.first_read
        ≡ read_object location payload)
      × (unmarshal payload ≡ some cat)
      × (h.catalog ≡ some cat)

  -- The catalog that `applyCatalog` stores is that of the payload, or the one from before.
  abbrev pub Stores : List ℕ → Holder → Retrieved → Type 0
  Stores payload h (retrieved next) =
      (cat : Catalog) × (unmarshal payload ≡ some cat) × (next.catalog ≡ some cat)
  Stores payload h (not_retrieved next) = Unit
  Stores payload h panicked = Unit

  apply_catalog-Stores :
      (payload : List ℕ) (h : Holder)
      → Stores payload h
          (apply_catalog unmarshal unmarshal_into marshal has_output logs_info takes payload h)
  unfolding apply_catalog
  apply_catalog-Stores payload h = elim (Option-cases (unmarshal payload)) [
    | inl bad ↦ rw (apply_catalog, bad) tt
    | inr (cat, good) ↦ elim (Bool-cases has_output) [
      | inr off ↦ rw (apply_catalog, good, off) (cat, good, refl)
      | inl on ↦ elim (Option-cases (marshal (some cat))) [
        | inl e ↦ rw (apply_catalog, good, on, e) tt
        | inr (text, e) ↦ elim (Bool-cases (takes (text ++ 10 ∷ []))) [
          | inr refused ↦ rw (apply_catalog, good, on, e, refused) tt
          | inl taken ↦ rw (apply_catalog, good, on, e, taken) (cat, good, refl)
        ]
      ]
    ]
  ]

  abbrev pub OnlyHolds : Answers → Retrieved → Type 0
  OnlyHolds a (retrieved next) = Holds a next
  OnlyHolds a (not_retrieved next) = Unit
  OnlyHolds a panicked = Unit

  Stores-OnlyHolds :
      (a : Answers) (location : Location) (payload : List ℕ) (h : Holder) (r : Retrieved)
      → a.first_read ≡ read_object location payload
      → Stores payload h r
      → OnlyHolds a r
  Stores-OnlyHolds a location payload h (retrieved next) e (cat, good, stored) =
      (location, payload, cat, e, good, stored)
  Stores-OnlyHolds a location payload h (not_retrieved next) e stored = tt
  Stores-OnlyHolds a location payload h panicked e stored = tt

  pub joining_catalog-OnlyHolds :
      (a : Answers) (h : Holder)
      → OnlyHolds a
          (joining_catalog unmarshal unmarshal_into marshal has_output logs_info takes a h)
  unfolding joining_catalog
  joining_catalog-OnlyHolds a h = elim (Bool-cases a.request_ok) [
    | inr refused ↦ rw (joining_catalog, refused) tt
    | inl asked ↦ elim (Option-cases a.largest) [
      | inl nothing ↦ simp (joining_catalog, asked, nothing) tt
      | inr (largest, at) ↦ elim (Bool-cases a.fetch_ok) [
        | inr failed ↦ simp (joining_catalog, asked, at, failed) tt
        | inl fetched ↦ elim (Read-cases a.first_read) [
          | inl (inl e) ↦ simp (joining_catalog, asked, at, fetched, e) tt
          | inl (inr e) ↦ simp (joining_catalog, asked, at, fetched, e) tt
          | inr (location, payload, e) ↦
              simp (joining_catalog, asked, at, fetched, e)
                (Stores-OnlyHolds a location payload h
                  (apply_catalog unmarshal unmarshal_into marshal has_output logs_info takes payload
                    h)
                  e (apply_catalog-Stores payload h))
        ]
      ]
    ]
  ]

  pub OnlyHolds-Holds :
      (a : Answers) (next : Holder) (r : Retrieved)
      → r ≡ retrieved next
      → OnlyHolds a r
      → Holds a next
  OnlyHolds-Holds a next (retrieved other) e holds =
      let same : other ≡ next = cc in rw (← same) holds
  OnlyHolds-Holds a next (not_retrieved other) e holds = absurd (cc)
  OnlyHolds-Holds a next panicked e holds = absurd (cc)
