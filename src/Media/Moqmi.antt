-- ===== src/Media/Moqmi.antt =====
-- `publishMoqMIVideo`, `publishMoqMIAudio` and `BuildMoqMITrackMap` of internal/pub/moqmi.go, without
-- the waits.
use moqlivemock_svc.Base.{
  ℕ, zero, suc, ◌+◌, ◌*◌, ◌/◌, ◌%◌, Bool, true, false, not, ◌&&◌, Option, none, some, List, [], ◌∷◌,
  ◌++◌, String, ◌==◌, if◌then◌else◌,
}
use moqlivemock_svc.Base.Words.{u64}
use moqlivemock_svc.Asset.Types.{
  CodecSpecificData, avc, aac, opus, ProtectionType, unprotected, ContentTrack, TrackGroup, Asset,
}
use moqlivemock_svc.Asset.Lookup.{or_else}
use moqlivemock_svc.Timing.Sample.{calc_sample}

-- What the headers of an object are made from; `extradata` where they carry the decoder's record.
pub record MoqmiObject : Type 0 where
  pub group : ℕ
  pub object_id : ℕ
  pub seq_id : ℕ
  pub pts : ℕ
  pub orig_nr : ℕ
  pub extradata : Bool

abbrev pub gop_dur_ms : ContentTrack → ℕ
gop_dur_ms ct =
    let dur = u64 (u64 (ct.gop_length * ct.sample_dur) * 1000) / ct.time_scale in
    if dur == 0 then 1000 else dur

-- The first group after `now`.
unfoldable pub start_gop : ContentTrack → ℕ → ℕ
start_gop ct now = now / gop_dur_ms ct + 1

-- The inner loop; it returns the next sequence number too.
unfoldable pub moqmi_gop : ContentTrack → ℕ → ℕ → ℕ → ℕ → ℕ → List MoqmiObject × ℕ
unfolding calc_sample
moqmi_gop ct group sample_nr object_id seq_id zero = ([], seq_id)
moqmi_gop ct group sample_nr object_id seq_id (suc count) =
    let rest = moqmi_gop ct group (sample_nr + 1) (object_id + 1) (seq_id + 1) count in
    (
      record {
        group = group;
        object_id = object_id;
        seq_id = seq_id;
        pts = u64 (sample_nr * ct.sample_dur);
        orig_nr = (calc_sample ct sample_nr).1;
        extradata = object_id == 0;
      }
          ∷ rest.0,
      rest.1,
    )

-- `groups` rounds of the outer loop.
unfoldable pub moqmi_video : ContentTrack → ℕ → ℕ → ℕ → List MoqmiObject
unfolding moqmi_gop
moqmi_video ct group_nr seq_id zero = []
moqmi_video ct group_nr seq_id (suc groups) =
    let gop = moqmi_gop ct group_nr (u64 (group_nr * ct.gop_length)) 0 seq_id ct.gop_length in
    gop.0 ++ moqmi_video ct (group_nr + 1) gop.1 groups

unfoldable pub publish_moqmi_video : ContentTrack → ℕ → ℕ → List MoqmiObject
unfolding moqmi_video start_gop
publish_moqmi_video ct now groups =
    if ct.gop_length == 0
    then []
    else moqmi_video ct (start_gop ct now) (u64 (start_gop ct now * ct.gop_length)) groups

-- The first frame that does not start before `now`.
unfoldable pub start_frame : ContentTrack → ℕ → ℕ
start_frame ct now =
    let units = u64 (now * ct.time_scale) / 1000 in
    if not (units % ct.sample_dur == 0) then units / ct.sample_dur + 1 else units / ct.sample_dur

-- A group for each frame.
unfoldable pub moqmi_audio : ContentTrack → ℕ → ℕ → ℕ → List MoqmiObject
unfolding calc_sample
moqmi_audio ct frame_nr seq_id zero = []
moqmi_audio ct frame_nr seq_id (suc frames) =
    record {
      group = frame_nr;
      object_id = 0;
      seq_id = seq_id;
      pts = u64 (frame_nr * ct.sample_dur);
      orig_nr = (calc_sample ct frame_nr).1;
      extradata = false;
    }
    ∷ moqmi_audio ct (frame_nr + 1) (seq_id + 1) frames

unfoldable pub publish_moqmi_audio : ContentTrack → ℕ → ℕ → List MoqmiObject
unfolding moqmi_audio start_frame
publish_moqmi_audio ct now frames =
    if ct.sample_dur == 0
    then []
    else moqmi_audio ct (start_frame ct now) (start_frame ct now) frames

abbrev pub is_avc : CodecSpecificData → Bool
is_avc (avc d) = true
is_avc _ = false

abbrev pub is_aac : CodecSpecificData → Bool
is_aac (aac d) = true
is_aac _ = false

abbrev pub is_opus : CodecSpecificData → Bool
is_opus (opus d) = true
is_opus _ = false

abbrev pub is_clear : ProtectionType → Bool
is_clear unprotected = true
is_clear _ = false

-- The first clear track of a kind, in the order of the groups.
unfoldable pub first_clear : (CodecSpecificData → Bool) → List ContentTrack → Option String
first_clear kind [] = none
first_clear kind (ct ∷ tracks) =
    let rest = first_clear kind tracks in
    if is_clear ct.protection && kind ct.spec_data then some ct.name else rest

unfoldable pub first_clear_in : (CodecSpecificData → Bool) → List TrackGroup → Option String
unfolding first_clear
first_clear_in kind [] = none
first_clear_in kind (group ∷ groups) =
    or_else (first_clear kind group.tracks) (first_clear_in kind groups)

abbrev pub entry_for : String → Option String → List (String × String)
entry_for name none = []
entry_for name (some track) = (name, track) ∷ []

-- The source fills both entries in one pass over the tracks, each from the first track that fits.
-- `none` is the error that no clear AVC track is there.
unfoldable pub build_moqmi_track_map : Asset → Option (List (String × String))
unfolding first_clear_in
build_moqmi_track_map a = elim (first_clear_in is_avc a.groups) [
  | none ↦ none
  | some video ↦ some (
      ("video0", video)
      ∷ entry_for "audio0"
          (or_else (first_clear_in is_aac a.groups) (first_clear_in is_opus a.groups)))
]
