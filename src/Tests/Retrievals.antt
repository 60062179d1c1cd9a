-- ===== src/Tests/Retrievals.antt =====
-- A catalog that is fetched, and one that is not there.
use moqlivemock_svc.Base.{
  ℕ, ◌≡◌, refl, ◌⊎◌, Bool, true, false, Option, none, some, List, [], ◌∷◌, String, ◌==◌,
  if◌then◌else◌,
}
use moqlivemock_svc.Catalog.Types.{Catalog}
use moqlivemock_svc.Subscribe.Retrieve.{
  read_object, read_eof, Answers, Holder, retrieved, panicked, mode_of, retrieve,
  subscribe_to_catalog, fetch_catalog, joining_catalog, apply_catalog,
}
use moqlivemock_svc.Subscribe.Joining.{Holds}
use moqlivemock_svc.Subscribe.Retrieved.{HoldsInto, ReadsInto, IsSilent, retrieve-Holds}

abbrev empty_catalog : Catalog
empty_catalog = record {
  version = "1";
  generated_at = none;
  is_complete = false;
  delta_update = [];
  tracks = [];
  init_data_list = [];
  content_protections = [];
}

abbrev parse_text : List ℕ → Option Catalog
parse_text [] = none
parse_text payload = some empty_catalog

abbrev print_text : Option Catalog → Option (List ℕ)
print_text cat = some (123 ∷ 125 ∷ [])

abbrev takes : List ℕ → Bool
takes bytes = true

abbrev at_end : Answers
at_end = record {
  request_ok = true;
  largest = some (record { group = 4; object = 0 });
  fetch_ok = true;
  first_read = read_eof;
}

abbrev nothing_held : Holder
nothing_held = record { catalog = none; written = [] }

-- The payload null makes the pointer nil, without an error.
abbrev null : List ℕ
null = 110 ∷ 117 ∷ 108 ∷ 108 ∷ []

abbrev parse_into : Option Catalog → List ℕ → Option Catalog × Bool
parse_into old [] = (old, false)
parse_into old (first ∷ payload) = (if first == 110 then none else some empty_catalog, true)

abbrev mode : String
mode = mode_of parse_text parse_into print_text true false takes false "subscribe"

retrieve-Holds_example :
    ((next : Holder)
      → retrieve parse_text parse_into print_text true false takes false "subscribe" at_end
          nothing_held
        ≡ retrieved next
      → ((mode ≡ "joining") × Holds parse_text parse_into print_text true false takes at_end next)
        ⊎ (ReadsInto parse_text parse_into print_text true false takes mode
            × (HoldsInto parse_text parse_into print_text true false takes at_end nothing_held next
                ⊎ IsSilent parse_text parse_into print_text true false takes at_end nothing_held
                    next)))
    × (ReadsInto parse_text parse_into print_text true false takes mode
        → IsSilent parse_text parse_into print_text true false takes at_end nothing_held
            nothing_held
        → retrieve parse_text parse_into print_text true false takes false "subscribe" at_end
            nothing_held
          ≡ retrieved nothing_held)
retrieve-Holds_example =
    retrieve-Holds parse_text parse_into print_text true false takes false "subscribe" at_end
      nothing_held

-- No error, and no catalog.
test_silent :
    retrieve parse_text parse_into print_text true true takes false "subscribe" at_end nothing_held
    ≡ retrieved nothing_held
unfolding retrieve subscribe_to_catalog
test_silent = refl

abbrev null_read : Answers
null_read = record at_end { first_read = read_object (record { group = 4; object = 0 }) null }

-- With null there is no catalog either, or a panic where the catalog is logged.
test_null :
    (retrieve parse_text parse_into print_text false false takes true "" null_read nothing_held
      ≡ retrieved nothing_held)
    × (retrieve parse_text parse_into print_text false true takes true "" null_read nothing_held
        ≡ panicked)
unfolding retrieve fetch_catalog
test_null = (refl, refl)

test_joining :
    retrieve parse_text parse_into print_text true true takes false ""
      (record at_end { first_read = read_object (record { group = 4; object = 0 }) (1 ∷ []) })
      nothing_held
    ≡ retrieved (record { catalog = some empty_catalog; written = (123 ∷ 125 ∷ 10 ∷ []) ∷ [] })
unfolding retrieve joining_catalog apply_catalog
test_joining = refl
