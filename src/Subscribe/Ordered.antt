-- ===== src/Subscribe/Ordered.antt =====
-- What the subscriber of internal/sub/sub.go subscribes to, and in which order.
use moqlivemock_svc.Base.{
  ◌≡◌, ◌≢◌, refl, Bool, true, false, ◌&&◌, ◌||◌, List, [], ◌∷◌, ◌++◌, map, String, str_eq, eq_iff,
  inl, inr, Bool-cases, arith,
}
use moqlivemock_svc.Catalog.Types.{Track, Catalog}
use moqlivemock_svc.Catalog.Depend.{
  Visit, ordered, cycle, not_found, out_of_fuel, dependency_order, elem,
}
use moqlivemock_svc.Catalog.Walk.{IsOrdered}
use moqlivemock_svc.Catalog.Order.{dependency_order-IsOrdered}
use moqlivemock_svc.Subscribe.Select.{
  Options, Selection, select_tracks, subscriptions, invalid_dependencies, one_track, media_type_of,
  video_names, after_video, with_video, any_rejected, plan,
}

after_video-subscriptions :
    (s : Selection) (video subs : List (String × String))
    → str_eq s.video_track "" ≡ false
    → after_video s video ≡ subscriptions subs
    → subs ≡ video ++ one_track s.audio_track "audio" ++ one_track s.subs_track "subs"
after_video-subscriptions s video subs chosen e =
    elim (Bool-cases
      (str_eq s.audio_track "" && str_eq s.video_track "" && str_eq s.subs_track "")) [
        | inl nothing ↦ absurd (ground arith)
        | inr something ↦ let made = (rw (after_video, something) at e) in cc
      ]

-- The subscriptions are those of the names in their order; the chosen video track has the media type
-- "video", another one "video_dependency".
abbrev pub AreVideo : String → List String → List (String × String) → Type 0
AreVideo video [] [] = Unit
AreVideo video [] (sub ∷ subs) = ⊥
AreVideo video (name ∷ names) [] = ⊥
AreVideo video (name ∷ names) ((subscribed, media_type) ∷ subs) =
    (subscribed ≡ name)
    × ((name ≡ video) → media_type ≡ "video")
    × ((name ≢ video) → media_type ≡ "video_dependency")
    × AreVideo video names subs

-- The subscription of a chosen name, none for the empty name.
abbrev pub IsOne : String → String → List (String × String) → Type 0
IsOne name media_type subs =
    ((name ≡ "") → subs ≡ []) × ((name ≢ "") → subs ≡ (name, media_type) ∷ [])

media_type_of-AreVideo :
    (video : String) (names : List String) → AreVideo video names (map (media_type_of video) names)
media_type_of-AreVideo video [] = tt
media_type_of-AreVideo video (name ∷ names) =
    let same = eq_iff name video in
    (
      refl,
      (λ e. rw (same.1 e) refl),
      (λ other. elim (Bool-cases (str_eq name video)) [
        | inl e ↦ absurd (other (same.0 e))
        | inr e ↦ rw (e) refl
      ]),
      media_type_of-AreVideo video names,
    )

one_track-IsOne : (name media_type : String) → IsOne name media_type (one_track name media_type)
one_track-IsOne name media_type =
    let empty = eq_iff name "" in
    (
      (λ e. rw (one_track, empty.1 e) refl),
      (λ other. elim (Bool-cases (str_eq name "")) [
        | inl e ↦ absurd (other (empty.0 e))
        | inr e ↦ rw (one_track, e) refl
      ]),
    )

-- What a plan with an order of the video tracks subscribes to: first the tracks of the order, then the
-- audio track, then the subtitle track.
abbrev pub IsPlanned : Catalog → Selection → List (String × String) → Type 0
IsPlanned catalog s subs =
    (names : List String) × (video : List (String × String)) × (audio : List (String × String))
    × (captions : List (String × String)) × IsOrdered catalog names
    × (elem s.video_track names ≡ true)
    × (subs ≡ video ++ audio ++ captions)
    × AreVideo s.video_track names video
    × IsOne s.audio_track "audio" audio
    × IsOne s.subs_track "subs" captions

from_visit :
    (catalog : Catalog) (s : Selection) (subs : List (String × String)) (v : Visit)
    → str_eq s.video_track "" ≡ false
    → dependency_order catalog s.video_track ≡ v
    → (elim v [
      | ordered names ↦ after_video s (map (media_type_of s.video_track) names)
      | cycle at ↦ invalid_dependencies
      | not_found at ↦ invalid_dependencies
      | out_of_fuel ↦ invalid_dependencies
    ])
      ≡ subscriptions subs
    → IsPlanned catalog s subs
from_visit catalog s subs (ordered names) chosen e made =
    let (order, last) = dependency_order-IsOrdered catalog s.video_track names e in
    (
      names,
      map (media_type_of s.video_track) names,
      one_track s.audio_track "audio",
      one_track s.subs_track "subs",
      order,
      last,
      after_video-subscriptions s _ subs chosen made,
      media_type_of-AreVideo s.video_track names,
      one_track-IsOne s.audio_track "audio",
      one_track-IsOne s.subs_track "subs",
    )
from_visit catalog s subs (cycle at) chosen e made = absurd (cc)
from_visit catalog s subs (not_found at) chosen e made = absurd (cc)
from_visit catalog s subs out_of_fuel chosen e made = absurd (cc)

-- With dependencies or simulated playback, the subscriptions of a plan that has a video track are the
-- tracks of a dependency order that has the chosen track, each as a video dependency but the chosen one
-- as the video, then the chosen audio track and then the chosen subtitle track, where there are such.
pub plan-IsOrdered :
    (locmaf_version : String) (parses : Track → Bool) (contains : String → String → Bool)
    (o : Options) (catalog : Catalog) (subs : List (String × String))
    → (o.subscribe_dependencies || o.simulate_playback) ≡ true
    → plan locmaf_version parses contains o catalog ≡ subscriptions subs
    → let s = select_tracks contains o catalog in
      str_eq s.video_track "" ≡ false → IsPlanned catalog s subs
unfolding plan
plan-IsOrdered version parses contains o catalog subs deps e chosen =
    let s = select_tracks contains o catalog in
    elim (Bool-cases (any_rejected version parses catalog.tracks)) [
      | inl bad ↦ let made = (rw (plan, bad) at e) in absurd (cc)
      | inr fine ↦
          from_visit catalog s subs (dependency_order catalog s.video_track) chosen refl
            (rw (plan, fine, chosen, with_video, video_names, deps) at e)
    ]
