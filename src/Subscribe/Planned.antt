-- ===== src/Subscribe/Planned.antt =====
-- The tracks that the subscriber chooses.
use mathlib.Core.List.{Memᴰ}
use moqlivemock_svc.Base.{
  ◌≡◌, refl, Bool, true, ◌&&◌, List, [], ◌∷◌, String, str_eq, eq_iff, if◌then◌else◌, ◌⊎◌, inl, inr,
  Bool-cases, arith,
}
use moqlivemock_svc.Catalog.Types.{Track, Catalog}
use moqlivemock_svc.Subscribe.Select.{
  Options, Selection, choose, select_track, select_loop, select_tracks, nothing_selected,
}

-- A name chosen for a role is empty, or it is that of a track of the role that matches the wanted
-- name.
abbrev pub IsChoice : (String → String → Bool) → List Track → String → String → String → Type 0
IsChoice contains tracks role wanted chosen =
    (chosen ≡ "")
    ⊎ ((track : Track) × Memᴰ track tracks
        × (track.name ≡ chosen)
        × (str_eq track.role role ≡ true)
        × ((wanted ≡ "") ⊎ (contains chosen wanted ≡ true)))

pub record IsSelection (contains : String → String → Bool) (o : Options) (tracks : List Track)
    (s : Selection) : Type 0 where
  pub video_choice : IsChoice contains tracks "video" o.video_name s.video_track
  pub audio_choice : IsChoice contains tracks "audio" o.audio_name s.audio_track
  pub subs_choice : IsChoice contains tracks "subtitle" o.subs_name s.subs_track

module _ (contains : String → String → Bool) (all : List Track) where
  choose-IsChoice :
      (role wanted : String) (default : Bool) (chosen : String) (track : Track)
      → Memᴰ track all
      → str_eq track.role role ≡ true
      → IsChoice contains all role wanted chosen
      → IsChoice contains all role wanted (choose contains wanted default chosen track.name)
  choose-IsChoice role wanted default chosen track m r kept = elim (Bool-cases (str_eq wanted "")) [
    | inl any ↦
        let free : wanted ≡ "" = (eq_iff wanted "").0 any in
        elim (Bool-cases (str_eq chosen "" && default)) [
          | inl new ↦ rw (choose, any, new) (inr (track, m, refl, r, inl free))
          | inr old ↦ rw (choose, any, old) kept
        ]
    | inr named ↦ elim (Bool-cases (str_eq chosen "" && contains track.name wanted)) [
      | inl new ↦ rw (choose, named, new) (inr (track, m, refl, r, inr (ground arith)))
      | inr old ↦ rw (choose, named, old) kept
    ]
  ]

  choose_if-IsChoice :
      (role wanted : String) (default : Bool) (chosen : String) (track : Track)
      → Memᴰ track all
      → IsChoice contains all role wanted chosen
      → IsChoice contains all role wanted (
          if str_eq track.role role
          then choose contains wanted default chosen track.name
          else chosen)
  choose_if-IsChoice role wanted default chosen track m kept =
      elim (Bool-cases (str_eq track.role role)) [
        | inl same ↦ rw (same) (choose-IsChoice role wanted default chosen track m same kept)
        | inr other ↦ rw (other) kept
      ]

  select_loop-IsSelection :
      (o : Options) (s : Selection) (tracks : List Track)
      → ((t : Track) → Memᴰ t tracks → Memᴰ t all)
      → IsSelection contains o all s
      → IsSelection contains o all (select_loop contains o s tracks)
  unfolding select_loop
  select_loop-IsSelection o s [] within kept = kept
  select_loop-IsSelection o s (track ∷ tracks) within kept =
      let m = within track (Memᴰ.head refl) in
      select_loop-IsSelection o (select_track contains o s track) tracks
        (λ t later. within t (Memᴰ.tail later))
        (record {
          video_choice =
              choose_if-IsChoice "video" o.video_name true s.video_track track m kept.video_choice;
          audio_choice =
              choose_if-IsChoice "audio" o.audio_name true s.audio_track track m kept.audio_choice;
          subs_choice =
              choose_if-IsChoice "subtitle" o.subs_name o.has_subs_output s.subs_track track m
                kept.subs_choice;
        })

-- The names chosen are those of tracks of the catalog, each of its role and matching the wanted name,
-- or empty.
pub select_tracks-IsSelection :
    (contains : String → String → Bool) (o : Options) (catalog : Catalog)
    → IsSelection contains o catalog.tracks (select_tracks contains o catalog)
select_tracks-IsSelection contains o catalog =
    select_loop-IsSelection contains catalog.tracks o (nothing_selected contains o) catalog.tracks
      (λ t m. m)
      (record { video_choice = inl refl; audio_choice = inl refl; subs_choice = inl refl })
