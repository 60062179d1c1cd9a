-- ===== src/Tests/Catalogs.antt =====
-- A catalog of two layers, and what a subscriber makes of it.
use moqlivemock_svc.Base.{
  ℕ, ◌≡◌, ◌≢◌, refl, Bool, true, false, [], ◌∷◌, String, str_eq, arith, if◌then◌else◌, Bool-cases,
  inl, inr, eq_iff, Option, none, some,
}
use moqlivemock_svc.Catalog.Lookup.{track_by_name}
use moqlivemock_svc.Catalog.Depend.{out_of_fuel, elem, visit, dependency_order}
use moqlivemock_svc.Catalog.Walk.{IsOrdered}
use moqlivemock_svc.Catalog.Order.{dependency_order-IsOrdered, dependency_order-total}
use moqlivemock_svc.Catalog.Acyclic.{IsRanked, Succeeds, dependency_order-Succeeds}
use moqlivemock_svc.Subscribe.Select.{Options, select_tracks, select_loop, plan}
use moqlivemock_svc.Subscribe.Planned.{IsSelection, select_tracks-IsSelection}
use moqlivemock_svc.Subscribe.Ordered.{IsPlanned, plan-IsOrdered}
use moqlivemock_svc.Base.Int.{pos}
use moqlivemock_svc.Catalog.Types.{Catalog}
use moqlivemock_svc.Asset.Types.{unprotected}
use moqlivemock_svc.Asset.Lookup.{get_loc_track_by_name}
use moqlivemock_svc.Catalog.Loc.{gen_loc_catalog_entry}
use moqlivemock_svc.Catalog.Resolve.{FindsAll, gen_loc_catalog_entry-FindsAll}
use moqlivemock_svc.Catalog.Cmaf.{gen_cmaf_catalog_entry}
use moqlivemock_svc.Catalog.InitRefs.{AllRefer, gen_cmaf_catalog_entry-AllRefer}
use moqlivemock_svc.Tests.Data.{short_asset, layered_catalog, layer_entry}

dependency_order-IsOrdered_example :
    IsOrdered layered_catalog ("v/s0" ∷ "v/s1" ∷ []) × (elem "v/s1" ("v/s0" ∷ "v/s1" ∷ []) ≡ true)
unfolding visit track_by_name
dependency_order-IsOrdered_example =
    dependency_order-IsOrdered layered_catalog "v/s1" ("v/s0" ∷ "v/s1" ∷ []) refl

dependency_order-total_example : dependency_order layered_catalog "v/s1" ≢ out_of_fuel
dependency_order-total_example = dependency_order-total layered_catalog "v/s1"

abbrev level : String → ℕ
level name = if str_eq name "v/s1" then 1 else 0

layered_catalog-IsRanked : IsRanked layered_catalog level
unfolding track_by_name
layered_catalog-IsRanked name track found d on = elim (Bool-cases (str_eq "v/s1" name)) [
  | inl top ↦
      let e = (eq_iff "v/s1" name).0 top in
      let found' = (rw (track_by_name, top) at found) in
      let made : layer_entry "v/s1" ("v/s0" ∷ []) ≡ track = cc in
      let on' = (rw (← made) at on) in
      let dep : str_eq "v/s0" d ≡ true = ground arith in
      rw (← (eq_iff "v/s0" d).0 dep, ← e) ((layer_entry "v/s0" [], refl), omega arith)
  | inr other ↦ elim (Bool-cases (str_eq "v/s0" name)) [
    | inl bottom ↦
        let found' = (rw (track_by_name, other, bottom) at found) in
        let made : layer_entry "v/s0" [] ≡ track = cc in
        let on' = (rw (← made) at on) in absurd (ground arith)
    | inr missing ↦ let found' = (rw (track_by_name, other, missing) at found) in absurd (cc)
  ]
]

dependency_order-Succeeds_example : Succeeds (dependency_order layered_catalog "v/s1")
unfolding track_by_name
dependency_order-Succeeds_example =
    dependency_order-Succeeds layered_catalog level "v/s1" (layer_entry "v/s1" ("v/s0" ∷ []))
      layered_catalog-IsRanked refl

abbrev anything : String → String → Bool
anything name part = true

abbrev simulating : Options
simulating = record {
  video_name = "";
  audio_name = "";
  subs_name = "";
  has_subs_output = false;
  subscribe_dependencies = false;
  simulate_playback = true;
}

select_tracks-IsSelection_example :
    IsSelection anything simulating layered_catalog.tracks
      (select_tracks anything simulating layered_catalog)
select_tracks-IsSelection_example = select_tracks-IsSelection anything simulating layered_catalog

plan-IsOrdered_example :
    IsPlanned layered_catalog
      (select_tracks anything simulating layered_catalog)
      (("v/s0", "video_dependency") ∷ ("v/s1", "video") ∷ [])
unfolding plan select_loop visit track_by_name
plan-IsOrdered_example =
    plan-IsOrdered "0.2" (λ track. true) anything simulating layered_catalog
      (("v/s0", "video_dependency") ∷ ("v/s1", "video") ∷ []) refl refl refl

gen_loc_catalog_entry-FindsAll_example :
    FindsAll
      (get_loc_track_by_name (λ name id. name) short_asset)
      (gen_loc_catalog_entry
        (λ prefix codec. prefix)
        (λ name id. name)
        (λ codec. true)
        (λ ct. pos 1)
        (λ ct layer. pos 1)
        short_asset
        (pos 0)).tracks
gen_loc_catalog_entry-FindsAll_example =
    gen_loc_catalog_entry-FindsAll (λ prefix codec. prefix) (λ name id. name) (λ codec. true)
      (λ ct. pos 1) (λ ct layer. pos 1) short_asset (pos 0)

abbrev get_some : Option Catalog → Catalog → Catalog
get_some none other = other
get_some (some catalog) other = catalog

-- The catalog of the short track, with bitrates of 1 and 2.
abbrev cmaf_catalog : Catalog
cmaf_catalog =
    get_some
      (gen_cmaf_catalog_entry (λ x y. y) (λ ct. some "AAAA") (λ st. none) (λ ct. some (pos 1))
        (λ ct. some (pos 2)) "0.2" (λ codec. true) short_asset (λ prot. []) "ns" unprotected
        (pos 0))
      layered_catalog

gen_cmaf_catalog_entry-AllRefer_example : AllRefer cmaf_catalog.init_data_list cmaf_catalog.tracks
unfolding gen_cmaf_catalog_entry
gen_cmaf_catalog_entry-AllRefer_example =
    gen_cmaf_catalog_entry-AllRefer (λ x y. y) (λ ct. some "AAAA") (λ st. none) (λ ct. some (pos 1))
      (λ ct. some (pos 2)) "0.2" (λ codec. true) short_asset (λ prot. []) "ns" unprotected (pos 0)
      cmaf_catalog refl
