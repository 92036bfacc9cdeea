-- ===== src/Lib.antt =====
-- A model of the core of the video player, and the proofs of what makes it correct.
--
-- A `Play` (src/play.cpp) reads a file in a task of its own and gives each packet to the `Video`
-- (src/video.cpp) or the `Audio` (src/audio.cpp) of its stream. Both have a `Decoder`
-- (src/decoder.cpp) that takes packets from a ring buffer (include/audioringbuffer.h) and puts frames
-- into a second one, from which a display task takes them at the time that the common `ClockSync`
-- (src/clocksync.cpp) gives. The audio task cuts frames into blocks and puts them, through a third
-- ring buffer, before the device's callback. Each of these owns a `WaitGroup` (src/waitgroup.cpp) for
-- its tasks, calls back through an `AC::Delegate` (include/utils/Delegate.h) and reports to the log
-- (src/utils/log.c).
--
--   Base         shared names, lists, segments of arrays, bit masks, `size_t` and signed integers
--   Double       `double` as a parameter of the clocks, with the laws of comparison they rely on
--   Alloc        include/audioringbuffer.h: `round_size`, `aligned_alloc_safe`, `next_pow2`
--   Fifo         the queue that a ring buffer promises to be
--   Ring         include/audioringbuffer.h: `DynamicAudioRingBuffer`, with a function for each
--                method; `Refine` is about it as the queue, `Threads`, `Concurrent` and `Interleave`
--                about one writing and one reading thread
--   StaticRing   include/audioringbuffer.h: `StaticAudioRingBuffer`, by agreement with the dynamic one
--   Clock        src/clocksync.cpp: `ClockSync`, with a function for each method
--   WaitGroup    src/waitgroup.cpp: the counter, and in `World` the interleavings of `Wait`, `Add` and
--                the tasks of `Go` as a relation on states
--   Delegate     include/utils/Delegate.h: shared arrays on a heap, lists of methods, `_Delegate_S`,
--                and in `Counts` the lists of `_Delegate` with the calls that read them
--   Log          src/utils/log.c: the buffer, the line of a message, the flush, the writer thread, the
--                folders, the names of files and the old ones among them
--   Audio        src/audio.cpp: the blocks of `_displayThread` and the frames it owns, the device that
--                players share, its callback, and in `Shutdown` the threads that `close` waits for
--   Decoder      src/decoder.cpp: the decoding loop, over a codec that is a parameter, and in `Life`
--                opening, writing and closing
--   Video        src/video.cpp: the wait of `_displayThread` over the clock, `_present`, and in
--                `Shutdown` the tasks that `close` waits for
--   Play         src/play.cpp: the opening of a file, the choice of the streams, and `_readThread` as a
--                relation on states
--
-- State is passed on explicitly; pointers into storage are indices. Where C or C++ would access
-- memory outside an array or one that is deleted, the models of Delegate and Log give `none`, and the
-- theorems show when that does not happen. An exception is a constructor of the result. A `size_t`
-- wraps at 2^64 and the counter of a wait group at 32 bits; sizes of the log, sample counts and time
-- stamps in samples are natural numbers, which stand for values that do not overflow.
--
-- Fuel: the `fwrite` loop of a flush and the loop over a frame's samples take fuel, a flush as many
-- rounds as bytes, a frame as many as samples and the decoder's receiving loop as many as the codec
-- has frames left. Every round that goes on handles one of these at least, and the theorems are about
-- the definitions with this fuel. The wait of a frame is a recursion on the times that it reads, and
-- the log's writer thread one on the turns it makes.
--
-- Parameters: the operations of `double`, the codec, the answers of the platform's allocator, of SDL,
-- of the scaler, of the library that opens a file, of the file system, of `mktime` and `localtime`, and
-- the bytes that `realloc` leaves unspecified. `realloc` and `new` are taken to succeed in Log and
-- Delegate. libgo's tasks, mutexes and condition variables are the steps of `WaitGroup.World`,
-- `Play.Loop`, `Video.Shutdown` and `Audio.Shutdown`.
--
-- Not modelled: an operator of a delegate with an `AC::Delegate`, whose mutex is not `std::mutex`, on
-- the other side, which the templates for functors take; the samples that resampling gives; what the
-- audio thread asks the clock; `seek`, `setSpeed` and the setters beside them; a second `open` of a
-- decoder before `close`; memory orders other than acquire and release, which the threads of a ring
-- use. include/models.h and include/utils/thread.h have types and macros only.
pub mod Base
pub mod Double
pub mod Alloc
pub mod Fifo
pub mod Ring
pub mod StaticRing
pub mod Clock
pub mod WaitGroup
pub mod Delegate
pub mod Log
pub mod Audio
pub mod Decoder
pub mod Video
pub mod Play
