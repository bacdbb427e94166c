-- ===== src/Lib.antt =====
-- The audio capture library libwebacapture: it records what a PulseAudio sink plays, from the
-- monitor of that sink, and hands it to a consumer in frames of a fixed size.
--
-- The parts. A consumer creates a handle (`weba_capture_create`). A capture thread (`capture_loop`)
-- asks the connection to the audio server (`control_t`) for a sink and its monitor, opens a
-- recording stream (`mic_t`) on the monitor, and pushes each frame that it reads onto a bounded
-- queue (`frame_queue_t`) that drops its oldest frame when it is full. The consumer reads frames
-- (`weba_capture_read_frame`) from the queue: with fixed-rate output one frame a period, with
-- silence where no audio came, otherwise as they come. Starting connects and makes the thread;
-- stopping asks it to end, closes the queue and waits for it, for a limited time (Api). Two threads
-- wait for each other on alarms (`alarm_t`) and condition variables.
--
-- Files, and what they model:
-- - Base and its children: names of the libraries, byte buffers, machine words, texts as bytes.
-- - CondVar: `std::condition_variable::wait_for` with a predicate, over a schedule of what the
--   other threads do.
-- - Alarm: `alarm_t` of src/primitives.h. Alarm/Delivery: what a waiter receives.
-- - ScopeGuard: `scope_guard_t` of src/primitives.h. ScopeGuard/Runs: how often its callable runs.
-- - FrameQueue: `frame_queue_t` of src/frame_queue.h. FrameQueue/Spec is the abstract list of
--   frames; Inv the invariant; Window and Refine relate the ring to the list; Loading and Abstract
--   are about queues that no caller can tell apart, as a quotient; Waiting and Loss are about `pop`
--   with its wait; History about sequences of calls.
-- - Format: types of include/webacapture.h and src/pulse_control.h.
-- - Mic: src/pulse_mic.h and src/pulse_mic.cpp (`open_mic` is `mic_t::open`). Mic/Layout, Mic/Size
--   and Mic/Opening are about the channel maps, the sizes and `open`.
-- - Control: src/pulse_control.h and src/pulse_control.cpp. Control/Queries holds the two queries
--   and their callbacks, Control/Resolving is about `resolve_target`, Control/Lifecycle about
--   `init` and `shutdown`, Control/Lifetime about the memory of a query's alarm and the callbacks
--   that come when the query has returned.
-- - Capture: `struct weba_capture` of src/capture.cpp. Capture/Create is `weba_config_defaults` and
--   `weba_capture_create`, Capture/Read is `weba_capture_read_frame`, with what stays the same in a
--   call (Setup, Steady), what a frame holds (Content), when frames go out (Cadence, Session), when
--   each call gives one (Open, Gives, Stream, First, Giving), when none is flagged as a gap (Calm)
--   and when calls end (Ending, Timeout) in its children, Capture/Flags the flags of a frame,
--   Capture/Period `frame_period_text`.
-- - CaptureThread: `weba_capture::capture_loop` of src/capture.cpp, one step between two points at
--   which other threads or the environment come in. CaptureThread/Invariant and
--   CaptureThread/Pipeline are about its interleavings with the consumer, Following, Reopening and
--   Stopping about its steps.
-- - Api: `weba_capture_start`, `weba_capture_stop` and `weba_capture_destroy` of src/capture.cpp.
--   Api/Queries holds `weba_capture_get_format`, `weba_capture_is_running`,
--   `weba_capture_last_error`, `weba_strerror` and `weba_version_string`. Api/Starting,
--   Api/Stopping, Api/Restarting and Api/Abandoned are about what a start and a stop leave behind,
--   and about a start after a stop, or after one that gave its thread up.
-- - Log: src/log.h and src/log.cpp. Log/Names is about the names of levels and the lines,
--   Log/Threshold about which lines are written. Log/Threads has threads that query and set the
--   level at the same time, Log/Threads/Race is about the level that they leave.
-- - Locks: the mutexes of src/capture.cpp, src/pulse_control.h, src/frame_queue.h, src/primitives.h
--   and src/log.cpp, as programs of what each operation takes and releases, run by any number of
--   threads in turns. Locks/Order is about their order, Locks/Progress about runs of them.
-- - Dump: examples/webacap-dump.c, its file and its recording loop. Dump/Main is `main`, over the
--   model of the library. Dump/Wav has a reader of WAV files, Dump/Wav/Header and
--   Dump/Wav/Recording are about what it finds, Dump/Ending about the end of its loop,
--   Dump/Main/Result and Dump/Main/Ending about a run that succeeds.
-- - SelfTest: tests/webaudio_selftest.cpp, its checks as a list of tests that passed or failed,
--   over the model of the library; SelfTest/Reads holds its `read_frames`. SelfTest/Handles is
--   about the handles that it makes and starts, SelfTest/Streaming and SelfTest/Gaps about its loop
--   of reads, SelfTest/Passing about its exit status.
-- - The files called Tests run the parts on small inputs.
--
-- State and errors. A record stands for each object, a method is a function from the object to its
-- result and the new object, and an error is a value: a status, a message, or the exception that
-- leaves a function. Where a source method runs under its mutex it is one atomic step.
--
-- Numbers. `uint32_t` and `size_t` are natural numbers with the wrap-around written out (`u32`,
-- `u64`). The clock is a natural number of nanoseconds without a bound, and periods are whole
-- microseconds as in the source.
--
-- Loops. The loop of `weba_capture_read_frame` takes a list of rounds, which hold what the clock
-- says and what other threads do; when they are used up the call is unfinished, and with fixed-rate
-- output two rounds are enough if a sleep lasts as long as asked. `capture_loop` is a step
-- function, so a run of it is a list of steps. A wait takes a schedule, whose end is its timeout.
--
-- The environment. libpulse and libpulse-simple are not part of the program. What they answer, and
-- when they call back, are arguments: `Connect`, `Server`, `NewAnswer`, `ReadAnswer`, and the list
-- of states that is reported during a disconnect. The allocator is an argument of `create`.
--
-- The recording loop of examples/webacap-dump.c takes a list of turns, those for which its clock
-- leaves time, and the loop of tests/webaudio_selftest.cpp one turn for each of its 50 reads; a
-- call in it that does not come back leaves the program there. A file is the list of its bytes with
-- a position, and writes have room. Log lines of the library are modelled in Log, and left out
-- where the library writes them.
--
-- Not modelled: the deleter of libpulse handles in src/primitives.h, which only calls libpulse; in
-- Locks, the locks inside libpulse and the joins of threads; what examples/webacap-dump.c and
-- tests/webaudio_selftest.cpp print, what the former makes of the `double` of its duration, the
-- comparison of two clocks in the latter, and how a `double` is printed.
pub mod Base
pub mod CondVar
pub mod Alarm
pub mod ScopeGuard
pub mod FrameQueue
pub mod Format
pub mod Mic
pub mod Control
pub mod Capture
pub mod CaptureThread
pub mod Api
pub mod Log
pub mod Locks
pub mod Dump
pub mod SelfTest
