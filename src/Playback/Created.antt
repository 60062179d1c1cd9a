-- ===== src/Playback/Created.antt =====
-- How `newNativePlayback` of internal/sub/playback.go ends.
use moqlivemock_svc.Base.{
  ℕ, zero, suc, ◌-◌, ◌<◌, ◌≡◌, refl, sym, ap, ◌∙◌, ◌⊎◌, inl, inr, Bool, true, false, not, ◌&&◌,
  none, some, List, [], ◌∷◌, ◌++◌, String, eq_iff, map, length, replicate, get_elem?, get_elem?-map,
  arith, Bool-cases, Option-cases, if◌then◌else◌, length-map,
}
use moqlivemock_svc.Base.Int.{ℤ, pos, ltb_ℤ}
use moqlivemock_svc.Catalog.Types.{Track, Catalog}
use moqlivemock_svc.Catalog.Lookup.{get_track_by_name}
use moqlivemock_svc.Playback.State.{PlaybackTrack}
use moqlivemock_svc.Playback.Flags.{flags}
use moqlivemock_svc.Playback.Levels.{IsLayered}
use moqlivemock_svc.Playback.Create.{
  NewPlayback, empty_chain, bad_latency, track_not_found, not_loc_av1, not_the_tip, created, Listed,
  lacks, refuses, listed, is_loc_av1, playback_track, list_track, list_tracks, new_player, is_tip,
  latency_refused, new_native_playback,
}

flags-none : (n : ℕ) → replicate n false ≡ flags 0 n
flags-none zero = refl
flags-none (suc n) = ap (λ (l : List Bool). false ∷ l) (flags-none n)

module _ (lower : String → String) (has_prefix : String → String → Bool) (catalog : Catalog)
    (simulated : Bool) where
  -- A name that the loop takes: the catalog has the track, and a simulated player its packaging.
  abbrev pub Usable : String → Type 0
  Usable name =
      (track : Track) × (get_track_by_name catalog name ≡ some track)
      × ((simulated && not (is_loc_av1 lower has_prefix track)) ≡ false)

  abbrev pub AllUsable : List String → Type 0
  AllUsable [] = Unit
  AllUsable (name ∷ names) = Usable name × AllUsable names

  abbrev pub Refused : String → Type 0
  Refused name =
      (simulated ≡ true)
      × ((track : Track) × (get_track_by_name catalog name ≡ some track)
          × (is_loc_av1 lower has_prefix track ≡ false))

  -- The first name of the list that is not usable.
  abbrev pub FirstOf : List String → String → Type 0
  FirstOf names name =
      (before : List String) × (after : List String) × (names ≡ before ++ name ∷ after)
      × AllUsable before

  abbrev Lists : List String → Listed → Type 0
  Lists names (listed tracks) =
      AllUsable names × (map (λ (t : PlaybackTrack). t.name) tracks ≡ names)
  Lists names (lacks name) = FirstOf names name × (get_track_by_name catalog name ≡ none)
  Lists names (refuses name) = FirstOf names name × Refused name

  FirstOf-cons :
      (name : String) (names : List String) (found : String)
      → Usable name
      → FirstOf names found
      → FirstOf (name ∷ names) found
  FirstOf-cons name names found usable (before, after, split, all) =
      (name ∷ before, after, ap (λ (l : List String). name ∷ l) split, (usable, all))

  Lists-cons :
      (name : String) (names : List String) (i : ℕ) (track : Track) (rest : Listed)
      → Usable name
      → Lists names rest
      → Lists
          (name ∷ names)
          (list_track lower has_prefix (playback_track lower has_prefix i name track) rest)
  Lists-cons name names i track (listed tracks) usable (all, same) =
      ((usable, all), ap (λ (l : List String). name ∷ l) same)
  Lists-cons name names i track (lacks found) usable (first, h) =
      (FirstOf-cons name names found usable first, h)
  Lists-cons name names i track (refuses found) usable (first, h) =
      (FirstOf-cons name names found usable first, h)

  list_tracks-Lists :
      (i : ℕ) (names : List String)
      → Lists names (list_tracks lower has_prefix catalog simulated i names)
  unfolding list_tracks
  list_tracks-Lists i [] = (tt, refl)
  list_tracks-Lists i (name ∷ names) = elim (Option-cases (get_track_by_name catalog name)) [
    | inl absent ↦ rw (list_tracks, absent) (([], names, refl, tt), absent)
    | inr (track, there) ↦
        elim (Bool-cases (simulated && not (is_loc_av1 lower has_prefix track))) [
          | inl wrong ↦
              rw (list_tracks, there, wrong)
                (([], names, refl, tt), (ground arith, (track, there, ground arith)))
          | inr right ↦
              rw (list_tracks, there, right)
                (Lists-cons name names i track _ (track, there, right)
                  (list_tracks-Lists (suc i) names))
        ]
  ]

  abbrev pub BadLatency : ℤ → ℤ → Type 0
  BadLatency minimal_buffer target_latency =
      (simulated ≡ true)
      × ((ltb_ℤ minimal_buffer (pos 0) ≡ true) ⊎ (ltb_ℤ minimal_buffer target_latency ≡ false))

  -- What each end says of the names, the target's name and the latencies.
  abbrev pub Explains : List String → String → ℤ → ℤ → NewPlayback → Type 0
  Explains names target_name minimal_buffer target_latency empty_chain = names ≡ []
  Explains names target_name minimal_buffer target_latency bad_latency =
      BadLatency minimal_buffer target_latency
  Explains names target_name minimal_buffer target_latency (track_not_found name) =
      FirstOf names name × (get_track_by_name catalog name ≡ none)
  Explains names target_name minimal_buffer target_latency (not_loc_av1 name) =
      FirstOf names name × Refused name
  Explains names target_name minimal_buffer target_latency not_the_tip =
      AllUsable names × ¬ (get_elem? names (length names - 1) ≡ some target_name)
  Explains names target_name minimal_buffer target_latency (created p) =
      AllUsable names
      × (¬ BadLatency minimal_buffer target_latency)
      × (get_elem? names (length names - 1) ≡ some target_name)
      × (map (λ (t : PlaybackTrack). t.name) p.tracks ≡ names)
      × (p.pending ≡ [])
      × IsLayered p

  tip_found :
      (tracks : List PlaybackTrack) (target_name : String) (names : List String)
      → map (λ (t : PlaybackTrack). t.name) tracks ≡ names
      → is_tip lower has_prefix tracks target_name ≡ true
      → get_elem? names (length names - 1) ≡ some target_name
  tip_found tracks target_name names same tip =
      let len = length-map tracks (λ (t : PlaybackTrack). t.name) in
      elim (Option-cases (get_elem? tracks (length tracks - 1))) [
        | inl absent ↦ let q : false ≡ true = rw (is_tip, absent) at tip in absurd (cc)
        | inr (t, there) ↦
            let named : t.name ≡ target_name =
              (eq_iff t.name target_name).0 (rw (is_tip, there) at tip) in
            rw (← same, len, ← named)
              (rw (there) at
                (get_elem?-map (λ (t : PlaybackTrack). t.name) tracks (length tracks - 1)))
      ]

  tip_missed :
      (tracks : List PlaybackTrack) (target_name : String) (names : List String)
      → map (λ (t : PlaybackTrack). t.name) tracks ≡ names
      → is_tip lower has_prefix tracks target_name ≡ false
      → ¬ (get_elem? names (length names - 1) ≡ some target_name)
  tip_missed tracks target_name names same tip is_last =
      let name_of = λ (t : PlaybackTrack). t.name in
      let at_end = get_elem?-map name_of tracks (length tracks - 1) in
      let is_last' : get_elem? (map name_of tracks) (length tracks - 1) ≡ some target_name =
        rw (← length-map tracks name_of, same) is_last in
      elim (Option-cases (get_elem? tracks (length tracks - 1))) [
        | inl absent ↦
            let gone : get_elem? (map name_of tracks) (length tracks - 1) ≡ none =
              rw (absent) at at_end in
            absurd (cc)
        | inr (t, there) ↦
            let named : get_elem? (map name_of tracks) (length tracks - 1) ≡ some t.name =
              rw (there) at at_end in
            let e : t.name ≡ target_name = cc in
            let q : true ≡ false =
              sym ((eq_iff t.name target_name).1 e) ∙ (rw (is_tip, there) at tip) in
            absurd (cc)
      ]

  some_tracks :
      (tracks : List PlaybackTrack) (names : List String)
      → map (λ (t : PlaybackTrack). t.name) tracks ≡ names
      → ¬ (names ≡ [])
      → 0 < length tracks
  some_tracks [] names same some_names = absurd (some_names (sym same))
  some_tracks (t ∷ tracks) names same some_names = omega arith

  listed-Explains :
      (names : List String) (target_name : String) (minimal_buffer target_latency : ℤ)
      (tracks : List PlaybackTrack)
      → ¬ BadLatency minimal_buffer target_latency
      → ¬ (names ≡ [])
      → AllUsable names
      → map (λ (t : PlaybackTrack). t.name) tracks ≡ names
      → Explains names target_name minimal_buffer target_latency (
          if is_tip lower has_prefix tracks target_name
          then created (new_player lower has_prefix tracks simulated minimal_buffer target_latency)
          else not_the_tip)
  listed-Explains names target_name minimal_buffer target_latency tracks in_time some_names all
        same =
      elim (Bool-cases (is_tip lower has_prefix tracks target_name)) [
        | inr missed ↦ rw (missed) (all, tip_missed tracks target_name names same missed)
        | inl tip ↦
            let len = length-map tracks (λ (t : PlaybackTrack). t.name) in
            rw (tip) (
              all,
              in_time,
              tip_found tracks target_name names same tip,
              same,
              refl,
              record {
                in_range = omega arith;
                valid_below = flags-none (length tracks);
                target_last = omega (arith, some_tracks tracks names same some_names);
              },
            )
      ]

  listed_end-Explains :
      (names : List String) (target_name : String) (minimal_buffer target_latency : ℤ) (l : Listed)
      → ¬ BadLatency minimal_buffer target_latency
      → ¬ (names ≡ [])
      → Lists names l
      → Explains names target_name minimal_buffer target_latency (elim l [
        | lacks missing ↦ track_not_found missing
        | refuses other ↦ not_loc_av1 other
        | listed tracks ↦
            if is_tip lower has_prefix tracks target_name
            then created
                (new_player lower has_prefix tracks simulated minimal_buffer target_latency)
            else not_the_tip
      ])
  listed_end-Explains names target_name minimal_buffer target_latency (lacks name) in_time
        some_names h =
      h
  listed_end-Explains names target_name minimal_buffer target_latency (refuses name) in_time
        some_names h =
      h
  listed_end-Explains names target_name minimal_buffer target_latency (listed tracks) in_time
        some_names h =
      listed-Explains names target_name minimal_buffer target_latency tracks in_time some_names h.0
        h.1

  -- For any catalog, chain of names, target and latencies, each end of `newNativePlayback` has its
  -- cause: no name; a simulated player whose minimal buffer is negative or not below the target
  -- latency; the first name that the catalog lacks, or that a simulated player cannot play; a last
  -- name that is not the target. Else there is a player: it has a track for each name, in their order,
  -- no pending unit, no active layer but the layer invariant, and none of these causes holds.
  pub new_native_playback-Explains :
      (names : List String) (target_name : String) (minimal_buffer target_latency : ℤ)
      → Explains names target_name minimal_buffer target_latency (
          new_native_playback lower has_prefix catalog names target_name simulated minimal_buffer
            target_latency)
  unfolding new_native_playback
  new_native_playback-Explains [] target_name minimal_buffer target_latency = refl
  new_native_playback-Explains (name ∷ names) target_name minimal_buffer target_latency =
      elim (Bool-cases (latency_refused lower has_prefix simulated minimal_buffer target_latency)) [
        | inl bad ↦ rw (new_native_playback, bad) (ground arith)
        | inr good ↦
            rw (new_native_playback, good)
              (listed_end-Explains (name ∷ names) target_name minimal_buffer target_latency _
                (λ late. ground (arith, good, late.0, late.1)) (λ e. absurd (cc))
                (list_tracks-Lists 0 (name ∷ names)))
      ]
