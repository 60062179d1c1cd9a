-- ===== src/Catalog/InitRefs.antt =====
-- The init data that the tracks of a CMAF catalog refer to.
use moqlivemock_svc.Base.{
  ℕ, ◌≡◌, refl, Bool, not, Option, none, some, List, [], ◌∷◌, ◌++◌, String, str_eq, eq_iff, length,
  Bool-cases, Option-cases, inl, inr, arith,
}
use moqlivemock_svc.Base.Int.{ℤ}
use moqlivemock_svc.Asset.Types.{ProtectionType, ContentTrack, TrackGroup, SubtitleTrack, Asset}
use moqlivemock_svc.Catalog.Types.{Track, InitData, ContentProtection, Catalog}
use moqlivemock_svc.Catalog.Lookup.{init_data_by_id}
use moqlivemock_svc.Catalog.Resolve.{IsFound}
use moqlivemock_svc.Catalog.Cmaf.{
  Entries, join, same_protection, base_fields, media_entries, group_entries, groups_entries,
  subtitle_entries, subtitle_track_entry, gen_cmaf_catalog_entry,
}

-- Each track refers to an entry of the list.
abbrev pub AllRefer : List InitData → List Track → Type 0
AllRefer entries [] = Unit
AllRefer entries (track ∷ tracks) =
    IsFound (init_data_by_id entries track.init_ref) × AllRefer entries tracks

abbrev pub Refers : Option Entries → Type 0
Refers none = Unit
Refers (some e) = AllRefer e.init_data_list e.tracks

by_id_first :
    (xs ys : List InitData) (ref : String)
    → IsFound (init_data_by_id xs ref)
    → IsFound (init_data_by_id (xs ++ ys) ref)
unfolding init_data_by_id
by_id_first [] ys ref (payload, e) = absurd (cc)
by_id_first (x ∷ xs) ys ref (payload, e) = elim (Bool-cases (str_eq x.id ref)) [
  | inl same ↦ (x.payload, rw (init_data_by_id, same) refl)
  | inr other ↦
      rw (init_data_by_id, other)
        (by_id_first xs ys ref (payload, rw (init_data_by_id, other) at e))
]

by_id_later :
    (xs ys : List InitData) (ref : String)
    → IsFound (init_data_by_id ys ref)
    → IsFound (init_data_by_id (xs ++ ys) ref)
unfolding init_data_by_id
by_id_later [] ys ref h = h
by_id_later (x ∷ xs) ys ref h = elim (Bool-cases (str_eq x.id ref)) [
  | inl same ↦ (x.payload, rw (init_data_by_id, same) refl)
  | inr other ↦ rw (init_data_by_id, other) (by_id_later xs ys ref h)
]

AllRefer-mono :
    (xs ys : List InitData) (tracks : List Track)
    → ((ref : String) → IsFound (init_data_by_id xs ref) → IsFound (init_data_by_id ys ref))
    → AllRefer xs tracks
    → AllRefer ys tracks
AllRefer-mono xs ys [] more h = tt
AllRefer-mono xs ys (track ∷ tracks) more (first, h) =
    (more track.init_ref first, AllRefer-mono xs ys tracks more h)

AllRefer-append :
    (entries : List InitData) (xs ys : List Track)
    → AllRefer entries xs
    → AllRefer entries ys
    → AllRefer entries (xs ++ ys)
AllRefer-append entries [] ys h h' = h'
AllRefer-append entries (x ∷ xs) ys (first, h) h' = (first, AllRefer-append entries xs ys h h')

join-Refers : (x y : Option Entries) → Refers x → Refers y → Refers (join x y)
join-Refers none y h h' = tt
join-Refers (some x) none h h' = tt
join-Refers (some x) (some y) h h' =
    AllRefer-append (x.init_data_list ++ y.init_data_list) x.tracks y.tracks
      (AllRefer-mono x.init_data_list _ x.tracks (by_id_first x.init_data_list y.init_data_list) h)
      (AllRefer-mono y.init_data_list _ y.tracks (by_id_later x.init_data_list y.init_data_list) h')

module _ (append_string : String → String → String) (init_data : ContentTrack → Option String)
    (subtitle_init_data : SubtitleTrack → Option String)
    (cmaf_bitrate locmaf_bitrate : ContentTrack → Option ℤ) (locmaf_version : String)
    (carries_captions : String → Bool) where
  abbrev entries_of : String → ProtectionType → ℕ → ContentTrack → Option Entries
  entries_of =
      media_entries append_string init_data subtitle_init_data cmaf_bitrate locmaf_bitrate
        locmaf_version carries_captions

  base_fields-ref :
      (namespace : String) (alt_group : ℕ) (ct : ContentTrack)
      → (base_fields append_string init_data subtitle_init_data cmaf_bitrate locmaf_bitrate
          locmaf_version carries_captions namespace alt_group ct).init_ref
        ≡ append_string "init-" ct.name
  unfolding base_fields
  base_fields-ref namespace alt_group ct = ground arith

  own_entry :
      (name payload : String)
      → IsFound (
          init_data_by_id
            (record { id = append_string "init-" name; type = "inline"; payload = payload } ∷ [])
            (append_string "init-" name))
  unfolding init_data_by_id
  own_entry name payload =
      let same = (eq_iff (append_string "init-" name) _).1 refl in
      (payload, rw (init_data_by_id, same) refl)

  media_entries-Refers :
      (namespace : String) (prot : ProtectionType) (alt_group : ℕ) (ct : ContentTrack)
      → Refers (entries_of namespace prot alt_group ct)
  unfolding media_entries
  media_entries-Refers namespace prot alt_group ct =
      elim (Bool-cases (not (same_protection ct.protection prot))) [
        | inl other ↦ rw (media_entries, Refers, other) tt
        | inr same ↦ elim (Option-cases (init_data ct)) [
          | inl bad ↦ rw (media_entries, Refers, same, bad) tt
          | inr (payload, made) ↦ elim (Option-cases (cmaf_bitrate ct)) [
            | inl bad ↦ rw (media_entries, Refers, same, made, bad) tt
            | inr (rate, cmaf) ↦ elim (Option-cases (locmaf_bitrate ct)) [
              | inl bad ↦ rw (media_entries, Refers, same, made, cmaf, bad) tt
              | inr (rate', locmaf) ↦
                  let own = own_entry ct.name payload in
                  let ref = base_fields-ref namespace alt_group ct in
                  rw (media_entries, Refers, same, made, cmaf, locmaf, ref) (own, (own, tt))
            ]
          ]
        ]
      ]

  group_entries-Refers :
      (namespace : String) (prot : ProtectionType) (alt_group : ℕ) (tracks : List ContentTrack)
      → Refers (
          group_entries append_string init_data subtitle_init_data cmaf_bitrate locmaf_bitrate
            locmaf_version carries_captions namespace prot alt_group tracks)
  unfolding group_entries
  group_entries-Refers namespace prot alt_group [] = tt
  group_entries-Refers namespace prot alt_group (ct ∷ tracks) =
      join-Refers (entries_of namespace prot alt_group ct) _
        (media_entries-Refers namespace prot alt_group ct)
        (group_entries-Refers namespace prot alt_group tracks)

  groups_entries-Refers :
      (namespace : String) (prot : ProtectionType) (groups : List TrackGroup)
      → Refers (
          groups_entries append_string init_data subtitle_init_data cmaf_bitrate locmaf_bitrate
            locmaf_version carries_captions namespace prot groups)
  unfolding groups_entries
  groups_entries-Refers namespace prot [] = tt
  groups_entries-Refers namespace prot (g ∷ groups) =
      join-Refers _ _ (group_entries-Refers namespace prot g.alt_group_id g.tracks)
        (groups_entries-Refers namespace prot groups)

  abbrev one_entry : String → ℕ → SubtitleTrack → String → Entries
  one_entry namespace groups st payload = record {
    tracks =
        subtitle_track_entry append_string init_data subtitle_init_data cmaf_bitrate locmaf_bitrate
          locmaf_version carries_captions namespace groups st
        ∷ [];
    init_data_list =
        record { id = append_string "init-" st.name; type = "inline"; payload = payload } ∷ [];
  }

  subtitle_entries-Refers :
      (namespace : String) (groups : ℕ) (tracks : List SubtitleTrack)
      → Refers (
          subtitle_entries append_string init_data subtitle_init_data cmaf_bitrate locmaf_bitrate
            locmaf_version carries_captions namespace groups tracks)
  unfolding subtitle_entries
  subtitle_entries-Refers namespace groups [] = tt
  subtitle_entries-Refers namespace groups (st ∷ tracks) =
      elim (Option-cases (subtitle_init_data st)) [
        | inl bad ↦ rw (subtitle_entries, Refers, bad) tt
        | inr (payload, made) ↦
            rw (subtitle_entries, made)
              (join-Refers (some (one_entry namespace groups st payload)) _
                (own_entry st.name payload, tt) (subtitle_entries-Refers namespace groups tracks))
      ]

-- In a CMAF catalog each track refers to an entry of the catalog's own init data list: both variants
-- of a media track, and subtitles.
pub gen_cmaf_catalog_entry-AllRefer :
    (append_string : String → String → String) (init_data : ContentTrack → Option String)
    (subtitle_init_data : SubtitleTrack → Option String)
    (cmaf_bitrate locmaf_bitrate : ContentTrack → Option ℤ) (locmaf_version : String)
    (carries_captions : String → Bool) (a : Asset)
    (protections : ProtectionType → List ContentProtection) (namespace : String)
    (prot : ProtectionType) (generated_at_ms : ℤ) (catalog : Catalog)
    → gen_cmaf_catalog_entry append_string init_data subtitle_init_data cmaf_bitrate locmaf_bitrate
        locmaf_version carries_captions a protections namespace prot generated_at_ms
      ≡ some catalog
    → AllRefer catalog.init_data_list catalog.tracks
unfolding gen_cmaf_catalog_entry
gen_cmaf_catalog_entry-AllRefer cat init sub rate rate' version captions a protections namespace
      prot at catalog e =
    let media = groups_entries cat init sub rate rate' version captions namespace prot a.groups in
    let subs =
      subtitle_entries cat init sub rate rate' version captions namespace (length a.groups)
        a.subtitle_tracks in
    let refer =
      join-Refers media subs
        (groups_entries-Refers cat init sub rate rate' version captions namespace prot a.groups)
        (subtitle_entries-Refers cat init sub rate rate' version captions namespace
          (length a.groups) a.subtitle_tracks) in
    elim (Option-cases (join media subs)) [
      | inl bad ↦ let no = (rw (gen_cmaf_catalog_entry, bad) at e) in absurd (cc)
      | inr (entries, made) ↦
          let same = (rw (gen_cmaf_catalog_entry, made) at e) in
          let refer' = (rw (made) at refer) in
          let data_same : entries.init_data_list ≡ catalog.init_data_list = cc in
          let tracks_same : entries.tracks ≡ catalog.tracks = cc in
          rw (← data_same, ← tracks_same) refer'
    ]
