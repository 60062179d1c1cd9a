-- ===== src/Catalog/Resolve.antt =====
-- The publisher finds each track that its LOC catalog names.
use moqlivemock_svc.Base.{
  ℕ, ◌≡◌, refl, Bool, true, false, ◌&&◌, Option, none, some, List, [], ◌∷◌, ◌++◌, String, str_eq,
  eq_iff, Bool-cases, inl, inr, arith,
}
use moqlivemock_svc.Base.Int.{ℤ}
use moqlivemock_svc.Asset.Types.{Av1SpatialLayer, ContentTrack, TrackGroup, Asset, LocTrack}
use moqlivemock_svc.Asset.Setup.{is_unprotected}
use moqlivemock_svc.Asset.Lookup.{
  layers_of, or_else, layer_in, loc_track_in, loc_track_in_groups, get_loc_track_by_name,
}
use moqlivemock_svc.Catalog.Types.{Track}
use moqlivemock_svc.Catalog.Loc.{
  is_loc_codec, layer_tracks, gen_loc_track, media_tracks, gen_loc_tracks_of, gen_loc_group,
  gen_loc_groups, gen_loc_catalog_entry,
}

abbrev pub IsFound {ℓ} : {A : Type ℓ} → Option A → Type ℓ
IsFound o = (a : _) × (o ≡ some a)

-- A lookup finds the name of each track of a list.
abbrev pub FindsAll : (String → Option LocTrack) → List Track → Type 0
FindsAll find [] = Unit
FindsAll find (track ∷ tracks) = IsFound (find track.name) × FindsAll find tracks

hit_at_once {ℓ} : {A : Type ℓ} (x y : Option A) → IsFound x → IsFound (or_else x y)
hit_at_once x y (a, e) = (a, rw (e) refl)

hit_afterwards {ℓ} : {A : Type ℓ} (x y : Option A) → IsFound y → IsFound (or_else x y)
hit_afterwards none y h = h
hit_afterwards (some a) y h = (a, refl)

FindsAll-append :
    (find : String → Option LocTrack) (xs ys : List Track)
    → FindsAll find xs
    → FindsAll find ys
    → FindsAll find (xs ++ ys)
FindsAll-append find [] ys h h' = h'
FindsAll-append find (x ∷ xs) ys (first, h) h' = (first, FindsAll-append find xs ys h h')

FindsAll-mono :
    (find find' : String → Option LocTrack) (xs : List Track)
    → ((name : String) → IsFound (find name) → IsFound (find' name))
    → FindsAll find xs
    → FindsAll find' xs
FindsAll-mono find find' [] more h = tt
FindsAll-mono find find' (x ∷ xs) more (first, h) =
    (more x.name first, FindsAll-mono find find' xs more h)

module _ (with_prefix : String → String → String) (layer_name : String → ℕ → String)
    (carries_captions : String → Bool) (loc_bitrate : ContentTrack → ℤ)
    (spatial_bitrate : ContentTrack → Av1SpatialLayer → ℤ) where
  layer_here :
      (ct : ContentTrack) (layer : Av1SpatialLayer) (layers : List Av1SpatialLayer)
      → IsFound (layer_in layer_name ct (layer ∷ layers) (layer_name ct.name layer.spatial_id))
  unfolding layer_in
  layer_here ct layer layers =
      let same = (eq_iff (layer_name ct.name layer.spatial_id) _).1 refl in
      (record { content_track = ct; spatial_layer = some layer }, rw (layer_in, same) refl)

  layer_later :
      (ct : ContentTrack) (layer : Av1SpatialLayer) (layers : List Av1SpatialLayer) (name : String)
      → IsFound (layer_in layer_name ct layers name)
      → IsFound (layer_in layer_name ct (layer ∷ layers) name)
  unfolding layer_in
  layer_later ct layer layers name h =
      elim (Bool-cases (str_eq name (layer_name ct.name layer.spatial_id))) [
        | inl same ↦
            (record { content_track = ct; spatial_layer = some layer }, rw (layer_in, same) refl)
        | inr other ↦ rw (layer_in, other) h
      ]

  layers_found :
      (ct : ContentTrack) (is_first : Bool) (layers : List Av1SpatialLayer)
      → FindsAll (layer_in layer_name ct layers) (
          layer_tracks with_prefix layer_name carries_captions loc_bitrate spatial_bitrate ct
            is_first layers)
  unfolding layer_tracks
  layers_found ct is_first [] = tt
  layers_found ct is_first (layer ∷ layers) = (
    layer_here ct layer layers,
    FindsAll-mono _ _ _ (layer_later ct layer layers) (layers_found ct false layers),
  )

  loc_track_later :
      (ct : ContentTrack) (tracks : List ContentTrack) (name : String)
      → IsFound (
          or_else
            (layer_in layer_name ct (layers_of ct.spec_data) name)
            (loc_track_in layer_name tracks name))
      → IsFound (loc_track_in layer_name (ct ∷ tracks) name)
  unfolding loc_track_in
  loc_track_later ct tracks name h = elim (Bool-cases (str_eq ct.name name)) [
    | inl same ↦ (record { content_track = ct; spatial_layer = none }, rw (loc_track_in, same) refl)
    | inr other ↦ rw (loc_track_in, other) h
  ]

  track_named :
      (ct : ContentTrack) (alt_group : ℕ)
      → (gen_loc_track with_prefix layer_name carries_captions loc_bitrate spatial_bitrate ct
          alt_group).name
        ≡ ct.name
  unfolding gen_loc_track
  track_named ct alt_group = ground arith

  media_found :
      (ct : ContentTrack) (alt_group : ℕ) (layers : List Av1SpatialLayer)
      (tracks : List ContentTrack)
      → layers_of ct.spec_data ≡ layers
      → FindsAll (loc_track_in layer_name (ct ∷ tracks)) (
          media_tracks with_prefix layer_name carries_captions loc_bitrate spatial_bitrate ct
            alt_group layers)
  unfolding loc_track_in
  media_found ct alt_group [] tracks e =
      let same : str_eq ct.name ct.name ≡ true = (eq_iff ct.name _).1 refl in
      (
        (
          record { content_track = ct; spatial_layer = none },
          rw (track_named ct alt_group, loc_track_in, same) refl,
        ),
        tt,
      )
  media_found ct alt_group (layer ∷ layers) tracks e =
      FindsAll-mono (layer_in layer_name ct (layer ∷ layers)) _ _
        (λ name h.
          loc_track_later ct tracks name
            (rw (e) (hit_at_once _ (loc_track_in layer_name tracks name) h)))
        (layers_found ct true (layer ∷ layers))

  group_found :
      (tracks : List ContentTrack) (alt_group : ℕ)
      → FindsAll (loc_track_in layer_name tracks) (
          gen_loc_group with_prefix layer_name carries_captions loc_bitrate spatial_bitrate tracks
            alt_group)
  unfolding gen_loc_group gen_loc_tracks_of
  group_found [] alt_group = tt
  group_found (ct ∷ tracks) alt_group =
      let later =
        FindsAll-mono (loc_track_in layer_name tracks) (loc_track_in layer_name (ct ∷ tracks)) _
          (λ name h.
            loc_track_later ct tracks name
              (hit_afterwards (layer_in layer_name ct (layers_of ct.spec_data) name) _ h))
          (group_found tracks alt_group) in
      elim (Bool-cases (is_unprotected ct.protection && is_loc_codec ct.spec_data)) [
        | inl published ↦
            rw (gen_loc_group, gen_loc_tracks_of, published)
              (FindsAll-append _ _ _ (media_found ct alt_group (layers_of ct.spec_data) tracks refl)
                later)
        | inr skipped ↦ rw (gen_loc_group, gen_loc_tracks_of, skipped) later
      ]

  groups_found :
      (groups : List TrackGroup)
      → FindsAll (loc_track_in_groups layer_name groups) (
          gen_loc_groups with_prefix layer_name carries_captions loc_bitrate spatial_bitrate groups)
  unfolding gen_loc_groups loc_track_in_groups
  groups_found [] = tt
  groups_found (g ∷ groups) =
      FindsAll-append (loc_track_in_groups layer_name (g ∷ groups)) _ _
        (FindsAll-mono (loc_track_in layer_name g.tracks) _ _
          (λ name h. hit_at_once (loc_track_in layer_name g.tracks name) _ h)
          (group_found g.tracks g.alt_group_id))
        (FindsAll-mono (loc_track_in_groups layer_name groups) _ _
          (λ name h. hit_afterwards (loc_track_in layer_name g.tracks name) _ h)
          (groups_found groups))

-- Each track of the LOC catalog of an asset, spatial layers included, is a name that the publisher
-- finds in the asset.
pub gen_loc_catalog_entry-FindsAll :
    (with_prefix : String → String → String) (layer_name : String → ℕ → String)
    (carries_captions : String → Bool) (loc_bitrate : ContentTrack → ℤ)
    (spatial_bitrate : ContentTrack → Av1SpatialLayer → ℤ) (a : Asset) (generated_at_ms : ℤ)
    → FindsAll
        (get_loc_track_by_name layer_name a)
        (gen_loc_catalog_entry with_prefix layer_name carries_captions loc_bitrate spatial_bitrate a
          generated_at_ms).tracks
unfolding gen_loc_catalog_entry
gen_loc_catalog_entry-FindsAll prefix layer captions rate spatial a at =
    groups_found prefix layer captions rate spatial a.groups
