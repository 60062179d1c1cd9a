-- ===== src/Publish/Served.antt =====
-- Which fetches of internal/pub/pub.go are served with the catalog.
use moqlivemock_svc.Base.{
  ℕ, ◌<◌, ◌≡◌, ◌≢◌, refl, ◌⊎◌, inl, inr, Bool, true, false, Option, some, List, [], ◌∷◌, ◌++◌,
  String, str_eq, eq_iff, length, ◌==◌, ==_iff, arith, Bool-cases,
}
use moqlivemock_svc.Catalog.Types.{Catalog}
use moqlivemock_svc.Catalog.Walk.{str_eq_refl}
use moqlivemock_svc.Publish.Location.{location_in_fetch_range, location_in_fetch_range_iff}
use moqlivemock_svc.Publish.Names.{NamespaceEntry, find_namespace, tuple_equal, tuple_loop}
use moqlivemock_svc.Publish.Handlers.{
  FetchCall, accept_fetch, fetch_stream, FetchMessage, catalog_location, fetch_handler,
  serve_catalog,
}
use moqlivemock_svc.Publish.Answers.{payloads}

==_refl : (n : ℕ) → (n == n) ≡ true
==_refl n = (==_iff n n).1 refl

tuple_loop_refl : (a : List String) → tuple_loop a a ≡ true
tuple_loop_refl [] = refl
tuple_loop_refl (t ∷ a) = rw (str_eq_refl t) (tuple_loop_refl a)

tuple_equal_refl : (a : List String) → tuple_equal a a ≡ true
unfolding tuple_equal
tuple_equal_refl a = rw (==_refl (length a)) (tuple_loop_refl a)

tuple_loop_eq : (a b : List String) → (length a == length b) ≡ true → tuple_loop a b ≡ true → a ≡ b
tuple_loop_eq [] [] len e = refl
tuple_loop_eq [] (u ∷ b) len e = absurd (ground arith)
tuple_loop_eq (t ∷ a) [] len e = absurd (cc)
tuple_loop_eq (t ∷ a) (u ∷ b) len e =
    let head : t ≡ u = (eq_iff t u).0 (ground arith) in
    let tail = tuple_loop_eq a b (ground arith) (ground arith) in cc

tuple_equal_eq : (a b : List String) → tuple_equal a b ≡ true → a ≡ b
unfolding tuple_equal
tuple_equal_eq a b e = elim (Bool-cases (length a == length b)) [
  | inl len ↦ tuple_loop_eq a b len (rw (len) at e)
  | inr other ↦ let q : false ≡ true = rw (other) at e in absurd (cc)
]

-- None of the entries has the namespace.
abbrev pub NoneHas : List String → List NamespaceEntry → Type 0
NoneHas ns [] = Unit
NoneHas ns (entry ∷ entries) = (ns ≢ entry.namespace) × NoneHas ns entries

find_namespace_first :
    (ns : List String) (before after : List NamespaceEntry) (entry : NamespaceEntry)
    → NoneHas ns before
    → ns ≡ entry.namespace
    → find_namespace (before ++ entry ∷ after) ns ≡ some entry
unfolding find_namespace
find_namespace_first ns [] after entry none_has e =
    let equal : tuple_equal ns entry.namespace ≡ true = rw (← e) (tuple_equal_refl ns) in
    rw (find_namespace, equal) refl
find_namespace_first ns (other ∷ before) after entry (apart, none_has) e =
    elim (Bool-cases (tuple_equal ns other.namespace)) [
      | inl equal ↦ absurd (apart (tuple_equal_eq ns other.namespace equal))
      | inr unequal ↦
          rw (find_namespace, unequal) (find_namespace_first ns before after entry none_has e)
    ]

-- A fetch of the track "catalog" in a namespace whose first entry is not of moq-mi, when the catalog is
-- marshalled and the calls that accept the fetch and open its stream succeed: it makes one write, of the
-- entry's catalog, when the range starts at {0, 0}, whatever its end, and none when it starts later.
pub fetch_handler-serves :
    (does_not_exist : ℕ) (marshal : Catalog → Option (List ℕ)) (ok : FetchCall → Bool)
    (before after : List NamespaceEntry) (entry : NamespaceEntry) (m : FetchMessage)
    (payload : List ℕ)
    → NoneHas m.namespace before
    → m.namespace ≡ entry.namespace
    → entry.packaging ≢ "moqmi"
    → m.track ≡ "catalog"
    → marshal entry.catalog ≡ some payload
    → ok accept_fetch ≡ true
    → ok fetch_stream ≡ true
    → let written =
        payloads (fetch_handler does_not_exist marshal ok (before ++ entry ∷ after) m) in
      ((m.start_location.group ≡ 0 → m.start_location.object ≡ 0 → written ≡ payload ∷ [])
        × ((0 < m.start_location.group) ⊎ (0 < m.start_location.object) → written ≡ []))
unfolding fetch_handler
fetch_handler-serves code marshal ok before after entry m payload none_has same other catalog json
      accepts streams =
    let found = find_namespace_first m.namespace before after entry none_has same in
    let named : str_eq m.track "catalog" ≡ true = (eq_iff _ _).1 catalog in
    let start = m.start_location in
    let end = m.end_location in
    let in_range = location_in_fetch_range_iff catalog_location start end in
    let plain : str_eq entry.packaging "moqmi" ≡ false =
      elim (Bool-cases (str_eq entry.packaging "moqmi")) [
        | inl e ↦ absurd (other ((eq_iff entry.packaging "moqmi").0 e))
        | inr e ↦ e
      ] in
    (
      λ group object.
          let range : location_in_fetch_range catalog_location start end ≡ true =
            in_range.1 (ground arith) in
          rw (fetch_handler, found, plain, named, accepts, streams, range, serve_catalog, json)
            (ground arith),
      λ later. elim (Bool-cases (location_in_fetch_range catalog_location start end)) [
        | inl range ↦ let inside = in_range.0 range in absurd (ground arith)
        | inr range ↦
            rw (fetch_handler, found, plain, named, accepts, streams, range) (ground arith)
      ],
    )
