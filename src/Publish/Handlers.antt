-- ===== src/Publish/Handlers.antt =====
-- `getFetchHandler` and `getSubscribeHandler` of internal/pub/pub.go. A handler is the list of calls
-- that it makes; `ok` says of a call whether it succeeds.
use moqlivemock_svc.Base.{
  ℕ, zero, suc, Bool, Option, none, some, List, [], ◌∷◌, String, str_eq, if◌then◌else◌,
}
use moqlivemock_svc.Asset.Types.{Asset, SubtitleTrack}
use moqlivemock_svc.Asset.Lookup.{get_subtitle_track_by_name}
use moqlivemock_svc.Catalog.Types.{Catalog}
use moqlivemock_svc.Catalog.Lookup.{track_by_name}
use moqlivemock_svc.Publish.Location.{Location, location_in_fetch_range}
use moqlivemock_svc.Publish.Names.{NamespaceEntry, find_namespace, is_interop_namespace}

pub data FetchCall : Type 0 where
  reject_fetch : ℕ → String → FetchCall
  accept_fetch fetch_stream close_fetch : FetchCall
  write_catalog : List ℕ → FetchCall

pub record FetchMessage : Type 0 where
  pub namespace : List String
  pub track : String
  pub start_location : Location
  pub end_location : Location

-- The code goes on after a call when it succeeds.
abbrev pub followed_by {ℓ} : {A : Type ℓ} → (A → Bool) → A → List A → List A
followed_by ok call rest = call ∷ (if ok call then rest else [])

abbrev pub catalog_location : Location
catalog_location = record { group = 0; object = 0 }

-- `does_not_exist` is the transport's ErrorCodeFetchTrackDoesNotExist, and `marshal` is json.Marshal.
module _ (does_not_exist : ℕ) (marshal : Catalog → Option (List ℕ)) (ok : FetchCall → Bool) where
  abbrev pub serve_catalog : Catalog → List FetchCall
  serve_catalog catalog = elim (marshal catalog) [
    | none ↦ []
    | some payload ↦ followed_by ok (write_catalog payload) (close_fetch ∷ [])
  ]

  unfoldable pub fetch_handler : List NamespaceEntry → FetchMessage → List FetchCall
  fetch_handler namespaces m = elim (find_namespace namespaces m.namespace) [
    | none ↦ reject_fetch does_not_exist "non-matching namespace" ∷ []
    | some entry ↦
        if str_eq entry.packaging "moqmi"
        then reject_fetch does_not_exist "moq-mi has no catalog" ∷ []
        else if str_eq m.track "catalog"
        then followed_by ok accept_fetch (
            followed_by ok fetch_stream (
              if location_in_fetch_range catalog_location m.start_location m.end_location
              then serve_catalog entry.catalog
              else close_fetch ∷ []))
        else reject_fetch does_not_exist "only catalog is fetchable" ∷ []
  ]

-- What a subscription starts to publish.
pub data Publication : Type 0 where
  moqmi_track : String → String → Publication
  catalog_track : Catalog → ℕ → Publication
  subtitle_publication : SubtitleTrack → Publication
  loc_publication : String → Publication
  media_publication : String → String → Publication

-- `accept` has the largest location, where one is advertised.
pub data SubscribeCall : Type 0 where
  reject_subscribe : ℕ → String → SubscribeCall
  accept_subscribe : Option Location → SubscribeCall
  publish : Publication → SubscribeCall

pub record SubscribeMessage : Type 0 where
  pub namespace : List String
  pub track : String

pub record Handler : Type 0 where
  pub namespaces : List NamespaceEntry
  pub asset : Asset
  pub catalog_delay : ℕ

-- A name that the map lacks is the empty name.
unfoldable pub resolve_moqmi_track : List (String × String) → String → String
resolve_moqmi_track [] name = ""
resolve_moqmi_track (entry ∷ entries) name =
    let rest = resolve_moqmi_track entries name in if str_eq entry.0 name then entry.1 else rest

-- `does_not_exist` is the transport's ErrorCodeSubscribeTrackDoesNotExist.
module _ (does_not_exist : ℕ) (ok : SubscribeCall → Bool) where
  abbrev pub accept_and_publish : Option Location → Publication → List SubscribeCall
  accept_and_publish largest publication =
      followed_by ok (accept_subscribe largest) (publish publication ∷ [])

  unfoldable pub subscribe_moqmi : NamespaceEntry → String → List SubscribeCall
  subscribe_moqmi entry track =
      if str_eq track "catalog"
      then reject_subscribe does_not_exist "moq-mi has no catalog" ∷ []
      else (let asset_track = resolve_moqmi_track entry.moqmi_tracks track in
          if str_eq asset_track ""
          then reject_subscribe does_not_exist "unknown moq-mi track" ∷ []
          else accept_and_publish none (moqmi_track asset_track track))

  unfoldable pub subscribe_catalog : Handler → NamespaceEntry → List SubscribeCall
  subscribe_catalog h entry = elim h.catalog_delay [
    | zero ↦ accept_and_publish (some catalog_location) (catalog_track entry.catalog 0)
    | suc delay ↦ accept_and_publish none (catalog_track entry.catalog (suc delay))
  ]

  unfoldable pub subscribe_media : Handler → NamespaceEntry → String → List SubscribeCall
  subscribe_media h entry name = elim (get_subtitle_track_by_name h.asset name) [
    | some st ↦ accept_and_publish none (subtitle_publication st)
    | none ↦ elim (track_by_name entry.catalog.tracks name) [
      | none ↦ reject_subscribe does_not_exist "unknown track" ∷ []
      | some track ↦ accept_and_publish none (
          if str_eq entry.packaging "loc"
          then loc_publication track.name
          else media_publication track.name track.packaging)
    ]
  ]

  unfoldable pub subscribe_handler : Handler → SubscribeMessage → List SubscribeCall
  unfolding subscribe_moqmi subscribe_catalog subscribe_media
  subscribe_handler h m =
      if is_interop_namespace m.namespace
      then accept_subscribe none ∷ []
      else elim (find_namespace h.namespaces m.namespace) [
        | none ↦ reject_subscribe 0 "non-matching namespace" ∷ []
        | some entry ↦
            if str_eq entry.packaging "moqmi"
            then subscribe_moqmi entry m.track
            else (if str_eq m.track "catalog"
                then subscribe_catalog h entry
                else subscribe_media h entry m.track)
      ]
