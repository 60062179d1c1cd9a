-- ===== src/Asset/Load.antt =====
-- `InitContentTrack` of internal/asset.go. What mp4ff reads of a file is `Source`; `init_spec_data`
-- stands for the codec's data, which come with the samples as they are then.
use moqlivemock_svc.Base.{
  ℕ, suc, ◌+◌, ◌-◌, ◌*◌, Bool, true, false, not, ◌&&◌, ◌||◌, Option, none, some, List, [], ◌∷◌,
  ◌++◌, String, str_eq, ltb, ◌==◌, if◌then◌else◌, length, map,
}
use moqlivemock_svc.Base.Words.{u32, u64, sub_u64}
use moqlivemock_svc.Asset.Types.{FullSample, CodecSpecificData, av1, unprotected, ContentTrack}
use moqlivemock_svc.Asset.Setup.{validate_av1_svc_gop, has_samples}

-- A decoded file: its tracks' number, the time scale, the language, the type of the sample
-- description, the samples of each fragment, and the media times of each edit list.
pub record Source : Type 0 where
  pub is_fragmented : Bool
  pub nr_traks : ℕ
  pub timescale : ℕ
  pub lang : String
  pub sample_desc : Option String
  pub fragments : List (Option (List FullSample))
  pub edit_lists : Option (List (List ℕ))

pub data Loaded : Type 0 where
  load_failed load_panicked : Loaded
  loaded : ContentTrack → Loaded

unfoldable pub all_samples : List (Option (List FullSample)) → Option (List FullSample)
all_samples [] = some []
all_samples (none ∷ fragments) = none
all_samples (some fs ∷ fragments) = elim (all_samples fragments) [
  | none ↦ none
  | some rest ↦ some (fs ++ rest)
]

-- The loop over the durations: the duration so far, 0 at first. The last sample may differ.
unfoldable pub common_dur : ℕ → List FullSample → Option ℕ
common_dur sample_dur [] = some sample_dur
common_dur sample_dur (s ∷ rest) =
    let next = common_dur (if sample_dur == 0 then s.dur else sample_dur) rest in
    if not (sample_dur == 0) && not (s.dur == sample_dur) && has_samples rest then none else next

-- `int64` media times below 0 are not modelled.
abbrev pub time_offset : String → Option (List (List ℕ)) → Option ℕ
time_offset content_type edit_lists =
    if not (str_eq content_type "audio") then some 0 else elim edit_lists [
      | none ↦ some 0
      | some ((media_time ∷ []) ∷ []) ↦ some (u64 media_time)
      | some _ ↦ none
    ]

-- The samples before the offset go, and the others' times are shifted.
unfoldable pub from_offset : ℕ → List FullSample → List FullSample
from_offset offset [] = []
from_offset offset (s ∷ rest) =
    let later = from_offset offset rest in if ltb s.decode_time offset then later else s ∷ rest

abbrev pub shift_time : ℕ → FullSample → FullSample
shift_time offset s = record s { decode_time = sub_u64 s.decode_time offset }

unfoldable pub shifted : ℕ → List FullSample → List FullSample
unfolding from_offset
shifted offset samples =
    if offset == 0 then samples else map (shift_time offset) (from_offset offset samples)

-- The loop over the sync samples from index `i`: the last of them, and the length so far.
unfoldable pub gop_loop : ℕ → ℕ → ℕ → List FullSample → Option ℕ
gop_loop i last_sync gop_length [] = some gop_length
gop_loop i last_sync gop_length (s ∷ rest) = elim s.sync [
  | false ↦ gop_loop (suc i) last_sync gop_length rest
  | true ↦ elim (gop_length == 0) [
    | true ↦ gop_loop (suc i) i (u32 (i - last_sync)) rest
    | false ↦ elim (gop_length == u32 (i - last_sync)) [
      | true ↦ gop_loop (suc i) i gop_length rest
      | false ↦ none
    ]
  ]
]

-- `ct.Samples[0]` panics where there is no sample: that is the outer `none`.
unfoldable pub gop_length_of : List FullSample → Option (Option ℕ)
unfolding gop_loop
gop_length_of [] = none
gop_length_of (s ∷ rest) = some (if s.sync then gop_loop 1 0 0 rest else some 0)

unfoldable pub sum_sizes : List FullSample → ℕ
sum_sizes [] = 0
sum_sizes (s ∷ rest) = s.size + sum_sizes rest

abbrev pub content_type_of : String → Option String
content_type_of desc =
    if str_eq desc "avc1"
      || str_eq desc "avc3"
      || str_eq desc "hvc1"
      || str_eq desc "hev1"
      || str_eq desc "av01"
    then some "video"
    else (if str_eq desc "mp4a" || str_eq desc "Opus" || str_eq desc "ac-3" || str_eq desc "ec-3"
        then some "audio"
        else none)

-- `float_bitrate` is the division of float64 numbers, of bits, duration and time scale.
module _ (init_spec_data : String → List FullSample → Option (CodecSpecificData × List FullSample))
    (strip_ext : String → String) (float_bitrate : ℕ → ℕ → ℕ → ℕ) where
  unfoldable pub new_track :
      Source → String → String → ℕ → ℕ → ℕ → CodecSpecificData → List FullSample → ContentTrack
  unfolding sum_sizes
  new_track f name content_type batch sample_dur gop_length spec_data samples =
      let duration = u32 (u32 (length samples) * sample_dur) in
      record {
        name = strip_ext name;
        content_type = content_type;
        language = f.lang;
        sample_bitrate =
            if duration == 0 then 0 else float_bitrate (sum_sizes samples * 8) duration f.timescale;
        time_scale = f.timescale;
        duration = duration;
        gop_length = gop_length;
        sample_dur = sample_dur;
        loop_dur = 0;
        sample_batch = batch;
        samples = samples;
        spec_data = spec_data;
        protection = unprotected;
        content_protection_ref_ids = [];
        cc608 = false;
      }

  abbrev pub is_svc : CodecSpecificData → Bool
  is_svc (av1 d) = ltb 0 (length d.spatial_layers)
  is_svc _ = false

  abbrev pub checked : ContentTrack → Loaded
  checked ct =
      if is_svc ct.spec_data && not (validate_av1_svc_gop ct) then load_failed else loaded ct

  unfoldable pub with_gop : Source → String → String → String → ℕ → ℕ → List FullSample → Loaded
  unfolding gop_length_of new_track
  with_gop f name desc content_type batch sample_dur samples = elim (gop_length_of samples) [
    | none ↦ load_panicked
    | some none ↦ load_failed
    | some (some gop_length) ↦ elim (init_spec_data desc samples) [
      | none ↦ load_failed
      | some (spec_data, kept) ↦
          checked (new_track f name content_type batch sample_dur gop_length spec_data kept)
    ]
  ]

  unfoldable pub with_samples : Source → String → String → String → ℕ → List FullSample → Loaded
  unfolding common_dur with_gop shifted
  with_samples f name desc content_type batch samples = elim (common_dur 0 samples) [
    | none ↦ load_failed
    | some sample_dur ↦ elim (time_offset content_type f.edit_lists) [
      | none ↦ load_failed
      | some offset ↦ with_gop f name desc content_type batch sample_dur (shifted offset samples)
    ]
  ]

  -- `none` is the error of mp4.DecodeFile.
  unfoldable pub init_content_track : Option Source → String → ℕ → ℕ → Loaded
  unfolding all_samples with_samples
  init_content_track none name audio_sample_batch video_sample_batch = load_failed
  init_content_track (some f) name audio_sample_batch video_sample_batch =
      if not f.is_fragmented || not (f.nr_traks == 1) then load_failed else elim f.sample_desc [
        | none ↦ load_failed
        | some desc ↦ elim (content_type_of desc) [
          | none ↦ load_failed
          | some content_type ↦ elim (all_samples f.fragments) [
            | none ↦ load_failed
            | some samples ↦
                with_samples f name desc content_type
                  (if str_eq content_type "video" then video_sample_batch else audio_sample_batch)
                  samples
          ]
        ]
      ]
