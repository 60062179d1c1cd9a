-- ===== src/Catalog/Lookup.antt =====
-- `GetTrackByName` and `InitDataFor` of internal/catalog.go.
use moqlivemock_svc.Base.{Option, none, some, List, [], ◌∷◌, String, str_eq, if◌then◌else◌}
use moqlivemock_svc.Catalog.Types.{Track, InitData, Catalog}

unfoldable pub track_by_name : List Track → String → Option Track
track_by_name [] name = none
track_by_name (track ∷ tracks) name =
    let rest = track_by_name tracks name in if str_eq track.name name then some track else rest

abbrev pub get_track_by_name : Catalog → String → Option Track
get_track_by_name catalog name = track_by_name catalog.tracks name

unfoldable pub init_data_by_id : List InitData → String → Option String
init_data_by_id [] ref = none
init_data_by_id (entry ∷ entries) ref =
    let rest = init_data_by_id entries ref in
    if str_eq entry.id ref then some entry.payload else rest

-- A nil track is `none`; the result ("", false) is `none`.
unfoldable pub init_data_for : Catalog → Option Track → Option String
init_data_for catalog none = none
init_data_for catalog (some track) =
    if str_eq track.init_ref "" then none else init_data_by_id catalog.init_data_list track.init_ref
