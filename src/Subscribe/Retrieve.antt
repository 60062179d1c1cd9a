-- ===== src/Subscribe/Retrieve.antt =====
-- How the subscriber of internal/sub/sub.go gets its catalog: `applyCatalog`, `joiningCatalog`,
-- `subscribeToCatalog`, `fetchCatalog`, and the choice of the mode in `handle`. The session is
-- moqtransport's: what its calls answer is `Answers`.
use moqlivemock_svc.Base.{
  ℕ, Bool, true, false, not, ◌&&◌, Option, none, some, List, [], ◌∷◌, ◌++◌, String, str_eq,
  if◌then◌else◌,
}
use moqlivemock_svc.Catalog.Types.{Catalog}
use moqlivemock_svc.Publish.Location.{Location, after_location}

abbrev pub is_none : Option Catalog → Bool
is_none none = true
is_none (some cat) = false

-- One `ReadObject`: an object with its location and payload, io.EOF, or another error.
pub data Read : Type 0 where
  read_object : Location → List ℕ → Read
  read_eof read_failed : Read

-- Whether the request succeeds, the largest location that the subscription reports, whether the joining
-- fetch succeeds, and the first object read.
pub record Answers : Type 0 where
  pub request_ok : Bool
  pub largest : Option Location
  pub fetch_ok : Bool
  pub first_read : Read

-- `catalog` is nil at first; `written` is what the "catalog" output has taken.
pub record Holder : Type 0 where
  pub catalog : Option Catalog
  pub written : List (List ℕ)

-- A nil error or an error, with the handler after the call; or a panic, which ends the program.
pub data Retrieved : Type 0 where
  retrieved not_retrieved : Holder → Retrieved
  panicked : Retrieved

-- `unmarshal` is `json.Unmarshal` into a new catalog, `unmarshal_into` that into the pointer
-- `h.catalog`: what the pointer is afterwards (nil where the payload is null), and whether there is no
-- error. `marshal` is `json.MarshalIndent` of the pointer, `has_output` whether there is an output,
-- `logs_info` whether slog is enabled for its Info level, `takes` whether the output takes some bytes.
module _ (unmarshal : List ℕ → Option Catalog)
    (unmarshal_into : Option Catalog → List ℕ → Option Catalog × Bool)
    (marshal : Option Catalog → Option (List ℕ)) (has_output logs_info : Bool)
    (takes : List ℕ → Bool) where
  abbrev pub put : List ℕ → Holder → Holder
  put bytes h = if takes bytes then record h { written = h.written ++ bytes ∷ [] } else h

  -- The catalog is stored before it is written.
  unfoldable pub apply_catalog : List ℕ → Holder → Retrieved
  apply_catalog payload h = elim (unmarshal payload) [
    | none ↦ not_retrieved h
    | some cat ↦
        let stored = record h { catalog = some cat } in
        if not has_output then retrieved stored else elim (marshal (some cat)) [
          | none ↦ not_retrieved stored
          | some text ↦
              if takes (text ++ 10 ∷ [])
              then retrieved (put (text ++ 10 ∷ []) stored)
              else not_retrieved stored
        ]
  ]

  abbrev pub holder_of : Holder → Retrieved → Holder
  holder_of before (retrieved h) = h
  holder_of before (not_retrieved h) = h
  holder_of before panicked = before

  -- The background reader of `joiningCatalog`: an error of `applyCatalog`, which does not panic, is
  -- logged.
  unfoldable pub joined_updates : Location → List (Location × List ℕ) → Holder → Holder
  unfolding apply_catalog after_location
  joined_updates largest [] h = h
  joined_updates largest ((location, payload) ∷ objects) h =
      elim (after_location location largest) [
        | false ↦ joined_updates largest objects h
        | true ↦ joined_updates largest objects (holder_of h (apply_catalog payload h))
      ]

  unfoldable pub joining_catalog : Answers → Holder → Retrieved
  unfolding apply_catalog
  joining_catalog a h = if not a.request_ok then not_retrieved h else elim a.largest [
    | none ↦ not_retrieved h
    | some largest ↦ if not a.fetch_ok then not_retrieved h else elim a.first_read [
      | read_object location payload ↦ apply_catalog payload h
      | read_eof ↦ not_retrieved h
      | read_failed ↦ not_retrieved h
    ]
  ]

  -- The two writes whose errors are logged: the catalog and a newline.
  abbrev pub written_out : Option Catalog → Holder → Holder
  written_out cat h =
      if not has_output
      then h
      else elim (marshal cat) [ none ↦ h | some text ↦ put (10 ∷ []) (put text h) ]

  -- A payload that does not parse is written out as it is.
  abbrev pub raw_out : List ℕ → Holder → Holder
  raw_out payload h = if has_output then put (10 ∷ []) (put payload h) else h

  -- A catalog that is parsed is logged, and `String` of a nil catalog panics.
  abbrev pub logged_out : Option Catalog → Holder → Retrieved
  logged_out cat h =
      if logs_info && is_none cat
      then panicked
      else retrieved (written_out cat (record h { catalog = cat }))

  unfoldable pub subscribe_to_catalog : Answers → Holder → Retrieved
  subscribe_to_catalog a h = if not a.request_ok then not_retrieved h else elim a.first_read [
    | read_eof ↦ retrieved h
    | read_failed ↦ not_retrieved h
    | read_object location payload ↦
        let (cat, good) = unmarshal_into h.catalog payload in
        elim good [
          | false ↦ not_retrieved (raw_out payload (record h { catalog = cat }))
          | true ↦ logged_out cat h
        ]
  ]

  -- The background reader of `subscribeToCatalog`.
  unfoldable pub subscribed_updates : List (Location × List ℕ) → Holder → Holder
  subscribed_updates [] h = h
  subscribed_updates ((location, payload) ∷ objects) h = elim (unmarshal payload) [
    | none ↦ subscribed_updates objects h
    | some cat ↦
        subscribed_updates objects (written_out (some cat) (record h { catalog = some cat }))
  ]

  unfoldable pub fetch_catalog : Answers → Holder → Retrieved
  fetch_catalog a h = if not a.request_ok then not_retrieved h else elim a.first_read [
    | read_eof ↦ retrieved h
    | read_failed ↦ not_retrieved h
    | read_object location payload ↦
        let (cat, good) = unmarshal_into h.catalog payload in
        elim good [ false ↦ not_retrieved (record h { catalog = cat }) | true ↦ logged_out cat h ]
  ]

  abbrev pub mode_of : Bool → String → String
  mode_of use_fetch catalog_mode =
      if use_fetch then "fetch" else if str_eq catalog_mode "" then "joining" else catalog_mode

  unfoldable pub retrieve : Bool → String → Answers → Holder → Retrieved
  unfolding joining_catalog subscribe_to_catalog fetch_catalog
  retrieve use_fetch catalog_mode a h =
      if str_eq (mode_of use_fetch catalog_mode) "joining"
      then joining_catalog a h
      else (if str_eq (mode_of use_fetch catalog_mode) "subscribe"
          then subscribe_to_catalog a h
          else (if str_eq (mode_of use_fetch catalog_mode) "fetch"
              then fetch_catalog a h
              else not_retrieved h))
