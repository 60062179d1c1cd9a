-- ===== src/Media/Complete.antt =====
-- A track whose samples cover its loop has a sample for each object: the publisher's loops run to
-- their end.
use moqlivemock_svc.Base.{
  ℕ, zero, suc, ◌+◌, ◌-◌, ◌*◌, ◌/◌, ◌<◌, ◌≤◌, ◌≡◌, refl, ap, Bool, true, Option, none, some, List,
  [], ◌∷◌, length, get_elem?, arith,
}
use moqlivemock_svc.Asset.Types.{FullSample, Av1SpatialLayer, ContentTrack, LocTrack}
use moqlivemock_svc.Timing.Group.{calc_moq_group}
use moqlivemock_svc.Timing.Sample.{calc_sample}
use moqlivemock_svc.Base.Words.{u32, u64}
use moqlivemock_svc.Timing.Round.{mul_mono, quotient_mono}
use moqlivemock_svc.Timing.Loop.{source_nr, calc_sample-source_nr, calc_sample-lt}
use moqlivemock_svc.Nal.Splice.{Codec}
use moqlivemock_svc.Loc.Marking.{loc_timestamp_micros}
use moqlivemock_svc.Loc.Object.{build_loc_object}
use moqlivemock_svc.Loc.RoundTrip.{object_timestamp-exact}
use moqlivemock_svc.Media.Fragment.{samples, create_fragment, fragment_samples}
use moqlivemock_svc.Media.LocTrack.{LocObject, complete, loc_group, loc_objects, sample_bytes}

-- The track's loop is whole: its samples cover the loop duration.
pub record IsLooping (t : ContentTrack) : Type 0 where
  pub sample_dur_pos : 0 < t.sample_dur
  pub loop_dur_pos : 0 < t.loop_dur
  pub covered : t.loop_dur ≤ length t.samples * t.sample_dur

get_elem?-lt {ℓ} :
    {A : Type ℓ} (xs : List A) (i : ℕ) → i < length xs → (a : A) × (get_elem? xs i ≡ some a)
get_elem?-lt [] i h = absurd (omega arith)
get_elem?-lt (x ∷ xs) zero h = (x, refl)
get_elem?-lt (x ∷ xs) (suc i) h = get_elem?-lt xs i (omega arith)

module _ (t : ContentTrack) (looping : IsLooping t) where
  sample_of :
      (nr : ℕ)
      → (nr + 1) * t.sample_dur < 18446744073709551616
      → (s : FullSample) × (get_elem? t.samples (calc_sample t nr).1 ≡ some s)
  sample_of nr fits = get_elem?-lt t.samples (calc_sample t nr).1 (
      calc_sample-lt t nr (length t.samples) looping.sample_dur_pos looping.loop_dur_pos
        looping.covered fits)

-- Each sample is that of the clip for its number, with its bytes, duration and sync flag, and its time
-- is its number times the sample duration.
abbrev pub IsSource : ContentTrack → ℕ → List FullSample → Type 0
IsSource t nr [] = Unit
IsSource t nr (s ∷ rest) =
    ((orig : FullSample) × (get_elem? t.samples (source_nr t nr) ≡ some orig)
      × (s.bytes ≡ orig.bytes)
      × (s.dur ≡ orig.dur)
      × (s.sync ≡ orig.sync))
    × (s.decode_time ≡ nr * t.sample_dur)
    × IsSource t (nr + 1) rest

module _ (splice : List ℕ → List ℕ → Codec → Option (List ℕ)) (t : ContentTrack)
    (looping : IsLooping t) where
  abbrev made_from : FullSample → ℕ → FullSample
  made_from orig nr = record {
    sync = orig.sync;
    dur = orig.dur;
    size = u32 (length orig.bytes);
    decode_time = (calc_sample t nr).0;
    bytes = orig.bytes;
  }

  calc_sample-time :
      (nr : ℕ) → nr * t.sample_dur < 18446744073709551616 → (calc_sample t nr).0 ≡ nr * t.sample_dur
  unfolding calc_sample
  calc_sample-time nr fits = omega arith

  fragment_samples-IsSource :
      (nr count : ℕ)
      → (nr + count) * t.sample_dur < 18446744073709551616
      → (made : List FullSample) × (fragment_samples splice t none nr count ≡ samples made)
        × (length made ≡ count)
        × IsSource t nr made
  unfolding fragment_samples
  fragment_samples-IsSource nr zero fits = ([], refl, refl, tt)
  fragment_samples-IsSource nr (suc count) fits =
      let early = mul_mono (nr + 1) (nr + suc count) t.sample_dur (omega arith) in
      let some_dur = looping.sample_dur_pos in
      let (orig, found) = sample_of t looping nr (omega (arith, early)) in
      let source_of = calc_sample-source_nr t nr some_dur (omega (arith, early)) in
      let time = calc_sample-time nr (omega (arith, early)) in
      let same : nr + suc count ≡ nr + 1 + count = omega arith in
      let (rest, e, len, source) = fragment_samples-IsSource (nr + 1) count (rw (← same) fits) in
      (
        made_from orig nr ∷ rest,
        rw (fragment_samples, found, e) refl,
        ap suc len,
        ((orig, rw (← source_of) found, refl, refl, refl), time, source),
      )

-- Without captions, and while the end of its range is at a time that fits a uint64, a fragment of a
-- looping track has a sample for each number of its range: the clip's for that number, also where the
-- clip starts again, at the number times the sample duration.
pub create_fragment-IsSource :
    (splice : List ℕ → List ℕ → Codec → Option (List ℕ)) (t : ContentTrack) (start_nr end_nr : ℕ)
    → IsLooping t
    → start_nr ≤ end_nr
    → end_nr * t.sample_dur < 18446744073709551616
    → (made : List FullSample) × (create_fragment splice t start_nr end_nr none ≡ samples made)
      × (length made ≡ end_nr - start_nr)
      × IsSource t start_nr made
unfolding create_fragment
create_fragment-IsSource splice t start_nr end_nr looping le fits =
    let same : end_nr ≡ start_nr + (end_nr - start_nr) = omega arith in
    fragment_samples-IsSource splice t looping start_nr (end_nr - start_nr) (rw (← same) fits)

-- Objects numbered from `id` on, with the times of the samples from `nr` on in microseconds.
abbrev pub IsTimed : ContentTrack → ℕ → ℕ → List LocObject → Type 0
IsTimed t id nr [] = Unit
IsTimed t id nr (o ∷ rest) =
    (o.object_id ≡ id)
    × (loc_timestamp_micros o.headers ≡ some (nr * t.sample_dur * 1_000_000 / t.time_scale))
    × IsTimed t (id + 1) (nr + 1) rest

-- What the timestamps need: a clock below 2^32, and microseconds that fit a uint64.
pub record HasTime (t : ContentTrack) (last : ℕ) : Type 0 where
  pub time_scale_pos : 0 < t.time_scale
  pub time_scale_small : t.time_scale < 4294967296
  pub ticks_fit : last * t.sample_dur < 18446744073709551616
  pub micros_fit : last * t.sample_dur * 1_000_000 / t.time_scale < 18446744073709551616

build_loc_object-timestamp :
    (t : ContentTrack) (last nr : ℕ) (bytes config : List ℕ) (sync : Bool)
    (layer : Option Av1SpatialLayer)
    → HasTime t last
    → nr ≤ last
    → loc_timestamp_micros
        (build_loc_object bytes sync (u64 (nr * t.sample_dur)) t.time_scale config layer).0
      ≡ some (nr * t.sample_dur * 1_000_000 / t.time_scale)
unfolding build_loc_object loc_timestamp_micros
build_loc_object-timestamp t last nr bytes config sync layer has le =
    let below = mul_mono nr last t.sample_dur le in
    let ticks = has.ticks_fit in
    let whole : u64 (nr * t.sample_dur) ≡ nr * t.sample_dur = omega (arith, below, ticks) in
    let less =
      quotient_mono (nr * t.sample_dur * 1_000_000) (last * t.sample_dur * 1_000_000) t.time_scale
        has.time_scale_pos (omega (arith, below)) in
    let fits = has.micros_fit in
    rw (whole) (
      ap some (
        object_timestamp-exact (nr * t.sample_dur) t.time_scale has.time_scale_pos
          has.time_scale_small (omega (arith, less, fits))))

module _ (has_sequence_header : List ℕ → Bool) (splice : List ℕ → List ℕ → Option (List ℕ))
    (ok : ℕ → Bool) (sei : Option (List (List ℕ))) (t : LocTrack) (last : ℕ) where
  loc_objects-IsTimed :
      (start_nr nr id count : ℕ)
      → IsLooping t.content_track
      → t.spatial_layer ≡ none
      → HasTime t.content_track last
      → nr + count ≤ last
      → ((n : ℕ) → ok n ≡ true)
      → let made = loc_objects has_sequence_header splice ok t sei start_nr nr id count in
        (made.1 ≡ complete) × (length made.0 ≡ count) × IsTimed t.content_track id nr made.0
  unfolding loc_objects
  loc_objects-IsTimed start_nr nr id zero looping plain has le always = (refl, refl, tt)
  loc_objects-IsTimed start_nr nr id (suc count) looping plain has le always =
      let early = mul_mono (nr + 1) last t.content_track.sample_dur (omega arith) in
      let ticks = has.ticks_fit in
      let (sample, found) = sample_of t.content_track looping nr (omega (arith, early, ticks)) in
      let (ends, len, timed) =
        loc_objects-IsTimed start_nr (nr + 1) (id + 1) count looping plain has (omega arith)
          always in
      let own : sample_bytes t.spatial_layer (calc_sample t.content_track nr).1 sample
          ≡ some sample.bytes =
        rw (plain) refl in
      rw (loc_objects, found, own, always id)
        (
          ends,
          ap suc len,
          (
            refl,
            build_loc_object-timestamp t.content_track last nr _ _ sample.sync t.spatial_layer has
                (omega arith),
            timed,
          ),
        )

-- When each write of a group comes to pass and the times fit a uint64, a looping track that is no spatial layer is published
-- completely: an object for each sample number of the group's range, numbered from 0, with the time
-- of its sample in microseconds as its timestamp.
pub loc_group-IsTimed :
    (has_sequence_header : List ℕ → Bool) (splice : List ℕ → List ℕ → Option (List ℕ))
    (ok : ℕ → Bool) (sei : Option (List (List ℕ))) (t : LocTrack) (group_nr : ℕ)
    → IsLooping t.content_track
    → t.spatial_layer ≡ none
    → let (start_nr, end_nr) = calc_moq_group t.content_track group_nr 1000 in
      HasTime t.content_track end_nr
      → start_nr ≤ end_nr
      → ((n : ℕ) → ok n ≡ true)
      → let made = loc_group has_sequence_header splice ok t sei group_nr 1000 in
        (made.1 ≡ complete)
        × (length made.0 ≡ end_nr - start_nr)
        × IsTimed t.content_track 0 start_nr made.0
unfolding loc_group
loc_group-IsTimed header splice ok sei t group_nr looping plain has le always =
    let (start_nr, end_nr) = calc_moq_group t.content_track group_nr 1000 in
    loc_objects-IsTimed header splice ok sei t end_nr start_nr start_nr 0 (end_nr - start_nr)
      looping plain has (omega arith) always
