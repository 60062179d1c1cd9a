-- ===== src/Subscribe/Mux.antt =====
-- `CmafMux` of internal/sub/mux.go. The boxes are mp4ff's: `Segments` is what the code uses of them.
use moqlivemock_svc.Base.{
  ℕ, Bool, not, ◌||◌, Option, none, some, List, [], ◌∷◌, ◌++◌, String, str_eq, ◌==◌, if◌then◌else◌,
}

-- What base64 and mp4ff make of init data: an error, a file without an init segment, or the segment.
pub data Decoded (A : Type 0) : Type 0 where
  undecodable missing : Decoded A
  decoded : A → Decoded A

-- `merge` is the empty init segment with the tracks of the video and the audio segment; `encode_init`
-- and `encode_fragment` are the bytes written; `fragments_of` decodes a media segment to the
-- fragments of each of its segments. `with_id` sets the track id. mp4ff may leave a pointer nil:
-- `init_has_boxes` says that those that the code follows are there (Moov.Trak, its Tkhd and Mdia.Mdhd,
-- and Moov.Mvex.Trex), `fragment_has_boxes` the same of Moof.Traf, its Tfhd and Tfdt.
pub record Segments : Type 1 where
  pub Init : Type 0
  pub Fragment : Type 0
  pub decode_init : String → Decoded Init
  pub init_has_boxes : Init → Bool
  pub init_with_id : ℕ → Init → Init
  pub time_scale : Init → ℕ
  pub merge : Init → Init → Init
  pub encode_init : Init → List ℕ
  pub fragments_of : List ℕ → Option (List (List Fragment))
  pub fragment_has_boxes : Fragment → Bool
  pub with_id : ℕ → Fragment → Fragment
  pub encode_fragment : Fragment → List ℕ

-- A Go map with string keys: a list of pairs, the newest first.
module _ {A : Type 0} where
  unfoldable pub value_at : List (String × A) → String → Option A
  value_at [] key = none
  value_at (entry ∷ entries) key =
      let rest = value_at entries key in if str_eq entry.0 key then some entry.1 else rest

-- `trackIDs`; a missing key gives 0.
abbrev pub track_id : String → ℕ
track_id media_type =
    if str_eq media_type "video" then 1 else (if str_eq media_type "audio" then 2 else 0)

module _ (s : Segments) where
  open s use {
    Init, Fragment, decode_init, init_has_boxes, init_with_id, time_scale, merge, encode_init,
    fragments_of, fragment_has_boxes, with_id, encode_fragment,
  }

  -- `written` is what the writer has taken. A write that fails takes nothing.
  pub record CmafMux : Type 0 where
    pub muxed : Option Init
    pub inits : List (String × Init)
    pub time_scales : List (String × ℕ)
    pub written : List (List ℕ)

  -- How a call ends: a nil error, an error, or a panic, which ends the program: of an integer division
  -- by 0, or of a nil pointer.
  pub data Call : Type 0 where
    returned failed : CmafMux → Call
    panicked : Call

  abbrev pub new_mux : CmafMux
  new_mux = record { muxed = none; inits = []; time_scales = []; written = [] }

  -- A missing time scale is 0, and an integer division by 0 panics.
  abbrev pub scale_of : CmafMux → String → ℕ
  scale_of m media_type = elim (value_at m.time_scales media_type) [ none ↦ 0 | some scale ↦ scale ]

  -- `len(f.Segments) != 1`, and the same for its fragments, is an error.
  abbrev pub single : List (List Fragment) → Option Fragment
  single ((fragment ∷ []) ∷ []) = some fragment
  single _ = none

  abbrev pub fragment_of : List ℕ → Option Fragment
  fragment_of sample = elim (fragments_of sample) [ none ↦ none | some segments ↦ single segments ]

  -- `ok` says of the bytes whether the writer takes them.
  module _ (ok : List ℕ → Bool) where
    abbrev pub write : List ℕ → CmafMux → Call
    write bytes m =
        if ok bytes then returned (record m { written = m.written ++ bytes ∷ [] }) else failed m

    unfoldable pub mux_init : CmafMux → Call
    mux_init m = elim (value_at m.inits "video") [
      | none ↦ returned m
      | some video ↦ elim (value_at m.inits "audio") [
        | none ↦ returned m
        | some audio ↦ elim m.muxed [
          | some init ↦ failed m
          | none ↦
              write (encode_init (merge video audio))
                (record m { muxed = some (merge video audio) })
        ]
      ]
    ]

    unfoldable pub add_init : String → String → CmafMux → Call
    unfolding mux_init value_at
    add_init init_data content_type m = elim (value_at m.inits content_type) [
      | some init ↦ failed m
      | none ↦ elim (decode_init init_data) [
        | undecodable ↦ failed m
        | missing ↦ failed m
        | decoded init ↦
            if init_has_boxes init
            then mux_init (record m {
              inits = (content_type, init_with_id (track_id content_type) init) ∷ m.inits;
              time_scales = (content_type, time_scale init) ∷ m.time_scales;
            })
            else panicked
      ]
    ]

    abbrev pub mux_fragment : Fragment → String → CmafMux → Call
    mux_fragment fragment media_type m =
        if not (fragment_has_boxes fragment) || scale_of m media_type == 0
        then panicked
        else write (encode_fragment (with_id (track_id media_type) fragment)) m

    unfoldable pub mux_sample : List ℕ → String → CmafMux → Call
    unfolding value_at
    mux_sample sample media_type m = elim m.muxed [
      | none ↦ returned m
      | some init ↦ elim (fragment_of sample) [
        | none ↦ failed m
        | some fragment ↦ mux_fragment fragment media_type m
      ]
    ]
