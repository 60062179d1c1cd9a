-- ===== src/Lib.antt =====
-- moqlivemock publishes looped MP4 clips as live media over MoQ (Media over QUIC) and has a
-- subscriber that reads them, writes them out and, on request, plays them in simulation. This
-- library models the logic between the files and the transport.
--
-- Parts and files:
-- Asset (internal/asset.go, internal/media.go, internal/subtitle.go): tracks, groups of tracks,
-- lookup by name, protected copies, loop durations, and the loading of a track from what mp4ff
-- reads of its file. `set_loop_duration` is setLoopDuration, `generate_track_groups`
-- generateTrackGroups, and so on: a definition has the function's name in lower case with
-- underscores.
-- Timing (internal/moqgroup.go, CalcSample): which samples belong to a group, how a group is cut
-- into chunks, and which sample of the clip an output sample is.
-- Loc (internal/pub/pub.go, internal/sub/loc.go): the headers of LOC objects, written and read.
-- Nal (internal/cc608/splice.go, internal/sub/loc.go, internal/media.go): frames of NAL units,
-- captions spliced in, AnnexB output.
-- Media (internal/asset.go, internal/moqgroup.go, internal/pub/): fragments, LOC groups, moq-mi
-- runs, caption schedules; and the rewriting of AVC and HEVC samples in place, as writes to a
-- buffer of which the NAL units are slices.
-- Subtitle (internal/subtitle.go): the cues that show the time, their samples and groups.
-- Catalog (internal/catalog.go, internal/asset.go, dependencyOrder of internal/sub/sub.go): the
-- catalog, its generators, and the order of dependencies.
-- Publish (internal/pub/pub.go): the fetch and subscribe handlers, as the calls they make.
-- Subscribe (handle of internal/sub/sub.go, internal/sub/mux.go): the retrieval of the catalog,
-- over what the session answers, with the pointer that json.Unmarshal fills as a parameter and a
-- panic as an end; the tracks chosen and the order of subscriptions; the moq-mi subscriber
-- (internal/sub/moqmi.go); the multiplexer, whose calls end in nil, an error or a panic, over a
-- record of mp4ff's operations.
-- Playback (internal/sub/playback.go): the simulated player. An object that arrives changes the
-- state by `add_object`; the timer calls `advance`; a Step is any of these, the deadline or the
-- metrics, from the player that `new_native_playback` makes.
-- Base has the names that all share; Tests has concrete inputs.
--
-- How they interact: the publisher finds a track of an Asset by the name in a Catalog (Publish),
-- takes its sample ranges from Timing, and makes objects with Media, Loc and Nal; the subscriber
-- chooses tracks (Subscribe), whose LOC objects Playback orders by the headers of Loc.
--
-- Numbers: uint64, uint32 and byte are natural numbers with the wrap-around written out, int and
-- time are integers. A time is in nanoseconds since the Unix epoch and a zero time is none. A
-- layer index that may be -1 is kept as a number of layers. A frame rate is kept as the two
-- numbers that the source divides.
--
-- Fuel: `chunk_loop` has a round more than there are samples, `write_loop` a round more than
-- bytes, `visit` a level more than tracks, `advance_loop` a round more than pending units,
-- `rewrite_loop` and `parse_nalus` a round more than bytes, `cue_loop` two rounds more than cue
-- periods; each is enough, as proved. The other loops are structural.
--
-- Not modelled: transport, TLS, HTTP, files and goroutines; the boxes of mp4ff, LOCMAF, go-608
-- and the transport's moqmi package, which are parameters; the decoding of MP4 files and the init
-- functions for AV1 and audio; the reading of objects in subscribeAndRead; how many bytes a
-- failing write of a catalog or of the multiplexer takes; bitrates, which are parameters;
-- encryption and decryption; the texts of subtitles and their publishing goroutine; the JSON of
-- the metrics; the commands; the copy of quic-go in deps.
pub mod Base
pub mod Asset
pub mod Timing
pub mod Loc
pub mod Playback
pub mod Catalog
pub mod Publish
pub mod Nal
pub mod Media
pub mod Subscribe
pub mod Subtitle
pub mod Tests
