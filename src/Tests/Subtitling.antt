-- ===== src/Tests/Subtitling.antt =====
-- A WVTT group of the publisher, and tracks that are loaded.
use moqlivemock_svc.Base.{
  ℕ, ◌+◌, ◌*◌, ◌≡◌, ◌<◌, refl, true, false, Option, none, some, List, [], ◌∷◌, String, arith,
  get_elem?, map, length,
}
use moqlivemock_svc.Base.Words.{u32}
use moqlivemock_svc.Asset.Types.{
  FullSample, SubtitleTrack, wvtt, CodecSpecificData, opus, ContentTrack, unprotected,
}
use moqlivemock_svc.Asset.Lookup.{new_subtitle_track}
use moqlivemock_svc.Asset.Load.{
  Source, loaded, init_content_track, with_samples, with_gop, new_track, all_samples, common_dur,
  gop_length_of, gop_loop, shifted, sum_sizes,
}
use moqlivemock_svc.Asset.Loading.{IsAtMultiple}
use moqlivemock_svc.Subtitle.Group.{StppTimeCue, gen_subtitle_group}
use moqlivemock_svc.Subtitle.Contiguous.{IsContiguous, gen_subtitle_group-IsContiguous}
use moqlivemock_svc.Media.Loaded.{init_content_track-IsAtMultiple}

abbrev cue_text : SubtitleTrack → ℕ → ℕ → List ℕ
cue_text st ms nr = ms ∷ nr ∷ []

abbrev no_template : SubtitleTrack → ℕ → List StppTimeCue → Option (List ℕ)
no_template st nr cues = none

abbrev times : ℕ → List FullSample → Option (List ℕ)
times nr samples = some (map (λ (s : FullSample). s.decode_time) samples)

abbrev wvtt_track : SubtitleTrack
wvtt_track = new_subtitle_track "subs_wvtt_en" wvtt "en"

gen_subtitle_group-IsContiguous_example :
    (samples : List FullSample) × (IsContiguous
      (4 * (1 * 1000))
      (4 * (1 * 1000) + 1 * 1000)
      samples)
    × (gen_subtitle_group cue_text no_template times wvtt_track 4 (1 * 1000)
        ≡ elim (times (u32 4) samples) [
          | none ↦ none
          | some object ↦ some (record {
            id = u32 4;
            start_time = 4 * (1 * 1000);
            end_time = 4 * (1 * 1000) + 1 * 1000;
            start_nr = 4;
            end_nr = 4 + 1;
            objects = object ∷ [];
          })
        ])
gen_subtitle_group-IsContiguous_example =
    gen_subtitle_group-IsContiguous cue_text no_template times wvtt_track 4 0 refl (omega arith)
      (omega arith) (omega arith)

abbrev opus_data : CodecSpecificData
opus_data = opus (record { codec = "opus"; sample_rate = 48000; channel_config = "2" })

abbrev opus_init : String → List FullSample → Option (CodecSpecificData × List FullSample)
opus_init desc samples = some (opus_data, samples)

abbrev packet : ℕ → FullSample
packet at = record { sync = true; dur = 960; size = 2; decode_time = at; bytes = 1 ∷ 2 ∷ [] }

abbrev opus_file : Source
opus_file = record {
  is_fragmented = true;
  nr_traks = 1;
  timescale = 48000;
  lang = "en";
  sample_desc = some "Opus";
  fragments = some (packet 0 ∷ packet 960 ∷ []) ∷ some (packet 1920 ∷ packet 2880 ∷ []) ∷ [];
  edit_lists = some ((960 ∷ []) ∷ []);
}

abbrev same_name : String → String
same_name name = name

abbrev bits_a_second : ℕ → ℕ → ℕ → ℕ
bits_a_second bits duration time_scale = 800

-- The packet before the edit list's media time is gone.
abbrev opus_track : ContentTrack
opus_track = record {
  name = "a";
  content_type = "audio";
  language = "en";
  sample_bitrate = 800;
  time_scale = 48000;
  duration = 2880;
  gop_length = 1;
  sample_dur = 960;
  loop_dur = 0;
  sample_batch = 2;
  samples = packet 0 ∷ packet 960 ∷ packet 1920 ∷ [];
  spec_data = opus_data;
  protection = unprotected;
  content_protection_ref_ids = [];
  cc608 = false;
}

opus_loaded :
    init_content_track opus_init same_name bits_a_second (some opus_file) "a" 2 1
    ≡ loaded opus_track
unfolding init_content_track with_samples with_gop new_track all_samples common_dur gop_length_of
    gop_loop shifted sum_sizes
opus_loaded = refl

init_content_track-IsAtMultiple_example :
    (desc : String) × (samples : List FullSample) × (opus_init desc samples
      ≡ some (opus_track.spec_data, opus_track.samples))
    × (opus_track.duration ≡ u32 (u32 (length opus_track.samples) * opus_track.sample_dur))
    × ((first : FullSample)
        → length samples < 4294967296
        → get_elem? samples 0 ≡ some first
        → first.sync ≡ true
        → IsAtMultiple opus_track.gop_length 0 samples)
init_content_track-IsAtMultiple_example =
    init_content_track-IsAtMultiple opus_init same_name bits_a_second (some opus_file) "a" 2 1
      opus_track opus_loaded
