-- ===== src/Publish/Names.antt =====
-- Namespaces: `NamespaceEntry`, `tupleEqual`, `findNamespace` and the map of moq-mi tracks, of
-- internal/pub/pub.go and internal/pub/moqmi.go.
use moqlivemock_svc.Base.{
  Bool, true, false, ◌&&◌, not, Option, none, some, List, [], ◌∷◌, String, str_eq, length, ◌==◌,
  if◌then◌else◌,
}
use moqlivemock_svc.Catalog.Types.{Catalog}

-- The loop reads `b[i]` for each index of `a`, where both have the same length.
abbrev pub tuple_loop : List String → List String → Bool
tuple_loop [] b = true
tuple_loop (t ∷ a) [] = false
tuple_loop (t ∷ a) (u ∷ b) = str_eq t u && tuple_loop a b

unfoldable pub tuple_equal : List String → List String → Bool
tuple_equal a b = if not (length a == length b) then false else tuple_loop a b

-- The map from moq-mi names to names of asset tracks is a list of pairs.
pub record NamespaceEntry : Type 0 where
  pub namespace : List String
  pub catalog : Catalog
  pub packaging : String
  pub moqmi_tracks : List (String × String)

abbrev pub interop_namespace : List String
interop_namespace = "moq-test" ∷ "interop" ∷ []

abbrev pub is_interop_namespace : List String → Bool
is_interop_namespace ns = tuple_equal ns interop_namespace

unfoldable pub find_namespace : List NamespaceEntry → List String → Option NamespaceEntry
find_namespace [] ns = none
find_namespace (entry ∷ entries) ns =
    let rest = find_namespace entries ns in
    if tuple_equal ns entry.namespace then some entry else rest
