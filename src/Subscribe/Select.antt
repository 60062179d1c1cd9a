-- ===== src/Subscribe/Select.antt =====
-- The part of `handle` of internal/sub/sub.go that follows the catalog: which tracks are chosen, and in
-- which order they are subscribed to. The outputs, the transport and the set-up of the player are left
-- out: `has_subs_output` is whether `h.Outs["subs"]` is set.
use moqlivemock_svc.Base.{
  Bool, true, false, not, ◌&&◌, ◌||◌, List, [], ◌∷◌, ◌++◌, map, String, str_eq, if◌then◌else◌,
}
use moqlivemock_svc.Catalog.Types.{Track, Catalog}
use moqlivemock_svc.Catalog.Depend.{Visit, ordered, cycle, not_found, out_of_fuel, dependency_order}

pub record Options : Type 0 where
  pub video_name : String
  pub audio_name : String
  pub subs_name : String
  pub has_subs_output : Bool
  pub subscribe_dependencies : Bool
  pub simulate_playback : Bool

-- The names chosen so far; the empty name is none.
pub record Selection : Type 0 where
  pub video_track : String
  pub audio_track : String
  pub subs_track : String

-- A wanted name is matched as a substring, the first match is kept; without one the first track of
-- the role is, if `default` allows.
abbrev pub choose : (String → String → Bool) → String → Bool → String → String → String
choose contains wanted default chosen name =
    if not (str_eq wanted "")
    then (if str_eq chosen "" && contains name wanted then name else chosen)
    else (if str_eq chosen "" && default then name else chosen)

abbrev pub has_protection : List String → Bool
has_protection [] = false
has_protection (id ∷ ids) = true

-- Where the loop over the tracks returns: a LOCMAF version that is not the library's,
-- `locmaf_version`, or a protected LOCMAF track whose init data does not parse.
abbrev pub is_rejected : String → (Track → Bool) → Track → Bool
is_rejected locmaf_version parses track =
    str_eq track.packaging "locmaf"
    && (not (str_eq track.locmaf_version "") && not (str_eq track.locmaf_version locmaf_version)
        || has_protection track.content_protection_ref_ids && not (parses track))

abbrev pub any_rejected : String → (Track → Bool) → List Track → Bool
any_rejected locmaf_version parses [] = false
any_rejected locmaf_version parses (track ∷ tracks) =
    is_rejected locmaf_version parses track || any_rejected locmaf_version parses tracks

-- `contains` is strings.Contains.
module _ (contains : String → String → Bool) (o : Options) where
  abbrev pub select_track : Selection → Track → Selection
  select_track s track = record {
    video_track =
        if str_eq track.role "video"
        then choose contains o.video_name true s.video_track track.name
        else s.video_track;
    audio_track =
        if str_eq track.role "audio"
        then choose contains o.audio_name true s.audio_track track.name
        else s.audio_track;
    subs_track =
        if str_eq track.role "subtitle"
        then choose contains o.subs_name o.has_subs_output s.subs_track track.name
        else s.subs_track;
  }

  unfoldable pub select_loop : Selection → List Track → Selection
  select_loop s [] = s
  select_loop s (track ∷ tracks) = select_loop (select_track s track) tracks

  abbrev pub nothing_selected : Selection
  nothing_selected = record { video_track = ""; audio_track = ""; subs_track = "" }

  abbrev pub select_tracks : Catalog → Selection
  select_tracks catalog = select_loop nothing_selected catalog.tracks

-- A subscription is a track's name and its media type.
abbrev pub media_type_of : String → String → String × String
media_type_of video_track name =
    (name, if str_eq name video_track then "video" else "video_dependency")

-- How the choice ends: the return at a track, the errors that close the connection, or the
-- subscriptions.
pub data Plan : Type 0 where
  unsupported_track invalid_dependencies no_matching_tracks : Plan
  subscriptions : List (String × String) → Plan

abbrev pub one_track : String → String → List (String × String)
one_track name media_type = if str_eq name "" then [] else (name, media_type) ∷ []

abbrev pub after_video : Selection → List (String × String) → Plan
after_video s video =
    if str_eq s.audio_track "" && str_eq s.video_track "" && str_eq s.subs_track ""
    then no_matching_tracks
    else subscriptions (video ++ one_track s.audio_track "audio" ++ one_track s.subs_track "subs")

-- Where each parameter is as above.
module _ (locmaf_version : String) (parses : Track → Bool) (contains : String → String → Bool)
    (o : Options) where
  abbrev pub video_names : Catalog → String → Visit
  video_names catalog name =
      if o.subscribe_dependencies || o.simulate_playback
      then dependency_order catalog name
      else ordered (name ∷ [])

  abbrev pub with_video : Catalog → Selection → Plan
  with_video catalog s = elim (video_names catalog s.video_track) [
    | ordered names ↦ after_video s (map (media_type_of s.video_track) names)
    | cycle at ↦ invalid_dependencies
    | not_found at ↦ invalid_dependencies
    | out_of_fuel ↦ invalid_dependencies
  ]

  unfoldable pub plan : Catalog → Plan
  unfolding select_loop
  plan catalog =
      let s = select_tracks contains o catalog in
      if any_rejected locmaf_version parses catalog.tracks
      then unsupported_track
      else (if str_eq s.video_track "" then after_video s [] else with_video catalog s)
