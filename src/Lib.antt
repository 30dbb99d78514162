-- ===== src/Lib.antt =====
-- The C++ add-on of this repository (src/) plays Dispatcharr's streams in Kodi. This library models
-- the parts of it that keep a stream's state, in a shallow embedding: pure functions become
-- functions, a call that changes state becomes a function from the state to its answer and the new
-- state, and what the network, the clock and the JSON library answer is an argument. The theorems
-- state what makes the parts correct; they are listed at the end.
--
-- How the parts interact: a live channel is read from a timeshift buffer on the server. A refresh
-- fetches a manifest, whose new entries are appended to the stream's segment list with cumulative
-- byte and time offsets; segments that the server no longer has are pruned off the front. Reads and
-- seeks work on byte positions in that list. A recording that is still being written is read in the
-- same way from a playlist, whose new entries are sized by probes before they are merged. A
-- WebSocket connection brings the server's events as text messages.
--
-- - Prelude: names passed on from the libraries, lists, integers (Int), the binary search of
--   `std::lower_bound` (Search), and facts on the bits of a byte (Bits).
-- - Json: src/JsonFieldUtil.h. The JSON library is not part of the repository, and is the
--   interface `JsonLib`: what the code asks of a value. Json/Field adds what the library documents
--   of `get<T>()` at integers, as a named hypothesis.
-- - Position: src/StreamSeek.cpp, `ResolveSeekPosition`, `ComputeReadRangeEnd` and
--   `ComputeSegmentReadSize`, with their bounds in Position/Bounds.
-- - Segments: src/SegmentAppendOffsets.h, src/SegmentLookup.h and the templates of
--   src/LiveEdgeMargin.h on any segment type (the interface `SegmentT`). Segments/Chain has the
--   invariant that segments lie end to end, Segments/Tail the margin at the live edge.
-- - Live: `LiveTimeshiftStreamState` of src/DispatcharrClient.h as the record `Stream`, with
--   src/LiveManifestParser.cpp and the pruning and trimming of src/LiveEdgeMargin.h. Live/Calls
--   has the calls of src/DispatcharrClient.cpp: `finish_refresh` is `RefreshLiveManifest` from its
--   state lock on, `start_at_live_edge` the end of `OpenLiveTimeshiftStream`,
--   `seek_live_timeshift_stream` is `SeekLiveTimeshiftStream`, and `skip_rolled_off`,
--   `choose_fetch` and `commit_read` are the steps of `ReadLiveTimeshiftStream`. Live/Manifest,
--   Window, Invariant, Refresh, Seek, Read and Open prove.
-- - Live/Session: those calls as steps, one for each hold of the state lock, in any order, with a
--   read in flight between the choice of its bytes and its commit (`m_liveSession`,
--   `stillSameStream()`). A read that ends before its commit answers -1 or 0, and the stream may
--   be marked dead at any time. `View` and `Moves` are what a player may rely on.
-- - Live/Reader: a whole read, its state and the failure handler; Live/Reader/Pass has the wait at
--   the tail and the transfer, Live/Reader/Pass/Once the whole pass. `read_passes` is
--   `ReadLiveTimeshiftStream`, `read_once` its pass `ReadLiveTimeshiftStreamOnce`,
--   `handle_failure` is `HandleLiveTimeshiftSegmentFetchFailure`. An `Env` holds what a pass
--   meets: the clock at each look at it, each refresh of the wait, the transfer and its response;
--   an `Away` is what happens to the stream while the lock is released, and `Does` of
--   Live/Reader/Others what the program's calls can make of it. The sleep behind a failed fetch is
--   counted in `slept_ms`, and the clock of the loop is the sum of these sleeps and of the time
--   that each pass takes besides them.
-- - CatchUp: src/CatchUpUtil.h. Retry: src/SegmentFetchFailure.h and the classifiers of
--   src/RecordingHttpUtil.h.
-- - Auth: src/AuthBackoff.cpp and src/AuthBackoff.h. Auth/Session: `ensure_authenticated` is
--   `EnsureAuthenticated` of src/DispatcharrClient.cpp, with `Login` (`log_in`),
--   `RefreshAccessToken` and `IsRetryDue` of src/Staleness.h; what the two endpoints would answer
--   comes in with the call.
-- - Pacing: src/HlsViewerKeepAlive.h and src/RequestTimeout.h. Visibility:
--   src/RecordingVisibility.cpp but for the finish decision.
-- - Padding: src/PaddingPush.h. Padding/Pushes runs it as `SetSetting` and
--   `RetryDeferredServerSyncs` of src/PVRDispatcharr.cpp do, with `SetDvrOffsetMinutes` of
--   src/DispatcharrClient.cpp: edits at any time, one push or retry at a time at the server, in
--   any order and with any end, an exception out of a request among them: the failure of such a
--   push is reported without the client's mutex, at any later time, and such a retry reports
--   nothing. Padding/Sides has what each step keeps of one side, Padding/Laws what a run keeps.
-- - Recording: src/UnprobeableSegment.cpp, src/InProgressSegmentCache.h, and the functions of
--   src/RecordingVisibility.cpp and src/M3u8SegmentParser.cpp that the refresh of an in-progress
--   recording uses. Recording/Refresh is `RefreshInProgressRecordingManifest` of
--   src/DispatcharrClient.cpp from the parsed playlist on; Recording/Failures, Merge and Finish
--   prove.
-- - Playlist: src/M3u8SegmentParser.cpp, and `pending_entries`, which is what a refresh does with
--   it. Doubles are not computed with: they are the interface `DoubleLib`, with `std::stod`,
--   `std::isfinite`, the comparison and the rounding to milliseconds.
-- - Url: src/UrlEncode.cpp, src/RedirectPolicy.cpp and what they use of src/StringUtil.cpp.
-- - WebSocket: WebSocket/Frame is src/WebSocketFrame.cpp, WebSocket/Client has `ReadExact`,
--   `SendPong`, `SendClose` and `ReceiveTextMessage` of src/WebSocketClient.cpp. What the socket
--   delivers is a list of events in the state. WebSocket/Encode has the frames that a server
--   sends, WebSocket/Reassembly the theorem on whole messages.
--
-- Numbers: sizes and counts are natural numbers, `int64_t` is an integer without a bound. In
-- Position each sum of the seek is an `as_int64` of the exact one, whose value where `int64_t` does
-- not hold it is an argument; and the clamps of the manifest parser bound the growth of the running
-- totals. A byte is a number below 256; a shift is a product or a quotient by a power of two, with
-- the wrap of `uint64_t` written out. Times of the steady clock are integers of nanoseconds in
-- Live/Reader, CatchUp, Retry and Auth/Session, where the code compares points with 0 and converts
-- spans to milliseconds, and natural numbers of milliseconds in Recording and Pacing. An `#EXTINF`
-- duration is the rounded number of milliseconds that the merge computes.
--
-- Fuel: `lower_bound` has as fuel the length of the range, which at least halves in each round;
-- `receive_loop` has a round for each byte that arrives, and one more, and each frame takes two
-- bytes; `read_passes` has four passes, since each that asks for another one sleeps 250 ms at least
-- (`std::this_thread::sleep_for` is documented to block for its duration at least) and a read is
-- handed back after a second. The rounds of the wait at the tail are those that its number of tries
-- allows.
--
-- Not modelled: the network calls, threads, locks and logging, Kodi's interface
-- (src/PVRDispatcharr.cpp, but for the pushes of the padding), the calls that start a buffer, the
-- reads of recordings, the parsers of channels, guide, recordings and timers, and the server's
-- plugins (dispatcharr-plugin/).
pub mod Auth
pub mod CatchUp
pub mod Json
pub mod Live
pub mod Pacing
pub mod Padding
pub mod Playlist
pub mod Position
pub mod Prelude
pub mod Recording
pub mod Retry
pub mod Segments
pub mod Url
pub mod Visibility
pub mod WebSocket
