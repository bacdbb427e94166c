-- ===== src/Dump/Tests.antt =====
-- Short recordings with examples/webacap-dump.c.
use linux_web_audio_capture.Base.{
  ℕ, true, false, ◌≡◌, refl, arith, none, some, List, [], ◌∷◌, ◌++◌, Bytes, bytes,
}
use linux_web_audio_capture.CondVar.{other, wake, wait_for}
use linux_web_audio_capture.Format.{s16le, ok}
use linux_web_audio_capture.FrameQueue
use linux_web_audio_capture.Control
use linux_web_audio_capture.Control.{
  Connect, Server, context_ready, callbacks, state_callback, resolve_target, ready,
  query_default_sink, query_monitor,
}
use linux_web_audio_capture.Control.Queries.{
  issued, server_info, sink_info, server_query, sink_query, server_info_callback,
  sink_info_callback,
}
use linux_web_audio_capture.Alarm.{wait, make_alarm, collect, try_ring}
use linux_web_audio_capture.Capture
use linux_web_audio_capture.Capture.{Capture, FormatInfo, closes, acts, act, publish_format}
use linux_web_audio_capture.Capture.Create.{
  Created, created, not_created, threw, fresh, configure, config_defaults, create,
}
use linux_web_audio_capture.Capture.Read.{
  Round, read_frame, loop, follow, round, plain_round, hand_over, fixed_round, with_deadline,
  sleep_us, due_round,
}
use linux_web_audio_capture.Mic.{channels_supported}
use linux_web_audio_capture.Api.{destroy, Started, start_terminated, start, started}
use linux_web_audio_capture.Api.Queries.{get_format}
use linux_web_audio_capture.Dump.{
  Dump, Turn, dump, put_frame, flag_names, put_header, put_u32le, put_u16le, fwrite, record_frames,
  put_sizes, frame_bytes,
}
use linux_web_audio_capture.Dump.Wav.{read_wav, wav_of, Fits, frames_read}
use linux_web_audio_capture.Dump.Wav.Recording.{read_wav-dump}
use linux_web_audio_capture.Dump.Main.{argument, turns_of, World, exits, main}
use linux_web_audio_capture.Dump.Ending.{AllSleepEnough}
use linux_web_audio_capture.Dump.Main.Ending.{main_exits}
use linux_web_audio_capture.Dump.Main.Result.{default_wav, main_lem}

flag_names_all : flag_names 15 128 ≡ bytes "discontinuity silence underrun reinit "
unfolding flag_names
flag_names_all = refl

flag_names_cut : flag_names 3 8 ≡ bytes "discont"
unfolding flag_names
flag_names_cut = refl

-- Two samples of 16 bits a frame, and one frame in the queue.
abbrev format : FormatInfo
format = record {
  sample_rate = 1000;
  channels = 1;
  frame_samples = 2;
  format = s16le;
  sink_name = [];
  monitor_name = [];
}

abbrev capture : Capture
capture = record fresh {
  sample_rate = 1000;
  channels = 1;
  frame_samples = 2;
  format = s16le;
  fixed_rate = false;
  running = true;
  queue = record (FrameQueue.sized (1 ∷ 2 ∷ 3 ∷ 4 ∷ []) 4 1) { count = 1 };
}

abbrev round_at : ℕ → Round
round_at now = record { before = []; now = now; during_pop = []; between = []; after = now }

abbrev turns : List Turn
turns =
    record { before = []; entered = 0; rounds = round_at 0 ∷ [] }
    ∷ record { before = closes ∷ []; entered = 1; rounds = round_at 1 ∷ [] }
    ∷ []

format-Fits : Fits format
format-Fits = record { channels = omega arith; sample_rate = omega arith; byte_rate = omega arith }

read_wav-dump_example :
    read_wav (dump format turns (0 ∷ 0 ∷ 0 ∷ 0 ∷ []) capture).out.content
    ≡ some (wav_of format (1 ∷ 2 ∷ 3 ∷ 4 ∷ []))
unfolding frames_read read_frame loop follow round plain_round hand_over acts act FrameQueue.pop
    FrameQueue.take_frame FrameQueue.close wait_for fresh dump record_frames put_frame
read_wav-dump_example =
    read_wav-dump format turns (0 ∷ 0 ∷ 0 ∷ 0 ∷ []) capture format-Fits refl (omega arith)

-- A recording of the default sink whose capture is closed while the first frame is awaited.
abbrev world : World
world = record {
  args = bytes "a.wav" ∷ bytes "2" ∷ [];
  room = λ n. true;
  has_handle = true;
  connect = record {
    new_mainloop = true;
    new_context = true;
    refused = none;
    during_connect = [];
    during_wait = other context_ready ∷ wake ∷ [];
  };
  server = record {
    default_sink = issued (other (server_info (some (bytes "a"))) ∷ []);
    sink_info = λ sink. issued (other (sink_info (some (bytes "a.monitor"))) ∷ []);
  };
  failed_start = [];
  malloc = λ n. some [];
  can_open = λ p. true;
  turns = λ seconds.
      record { before = closes ∷ []; entered = 0; rounds = round_at 0 ∷ round_at 30_000_000 ∷ [] }
      ∷ [];
  during_stop = [];
  at_disconnect = [];
}

-- The file that it leaves.
abbrev empty_wav : Bytes
empty_wav =
    bytes "RIFF"
    ++ (36 ∷ 0 ∷ 0 ∷ 0 ∷ bytes "WAVEfmt "
        ++ (16
              ∷ 0
              ∷ 0
              ∷ 0
              ∷ 3
              ∷ 0
              ∷ 2
              ∷ 0
              ∷ 128
              ∷ 187
              ∷ 0
              ∷ 0
              ∷ 0
              ∷ 220
              ∷ 5
              ∷ 0
              ∷ 8
              ∷ 0
              ∷ 32
              ∷ 0
              ∷ bytes "data"
            ++ (0 ∷ 0 ∷ 0 ∷ 0 ∷ [])))

main_lem_example :
    (handle : Capture) × (c : Capture) × (buffer : Bytes) × (create world.room world.has_handle true
        (some (record config_defaults { sink = argument 2 world.args }))
      ≡ created handle)
    × (start world.connect world.server world.failed_start handle ≡ started ok c)
    × (world.malloc (frame_bytes c.format_info) ≡ some buffer)
    × (read_wav empty_wav
        ≡ some (default_wav (frames_read c.format_info (turns_of world) buffer c)))
unfolding main create configure config_defaults channels_supported FrameQueue.init
    Capture.frame_bytes start fresh Control.init callbacks wait_for state_callback resolve_target
    ready query_default_sink server_query server_info_callback wait collect make_alarm try_ring
    query_monitor sink_query sink_info_callback publish_format get_format dump put_header put_u32le
    put_u16le fwrite record_frames read_frame loop follow round fixed_round with_deadline sleep_us
    due_round acts act Capture.frame_period FrameQueue.close FrameQueue.pop FrameQueue.take_frame
    put_sizes
main_lem_example = main_lem world {file = empty_wav} refl (omega arith)

abbrev handle_of : Created → Capture
handle_of threw = fresh
handle_of (not_created status) = fresh
handle_of (created c) = c

abbrev capture_of : Started → Capture
capture_of start_terminated = fresh
capture_of (started status c) = c

abbrev handle : Capture
handle = handle_of (create world.room true true (some (record config_defaults { sink = none })))

abbrev begun : Capture
begun = capture_of (start world.connect world.server [] handle)

abbrev recorded : Dump
recorded = dump begun.format_info (turns_of world) [] begun

main_exits_example :
    main world ≡ exits 0 (some recorded.out.content) (some (destroy [] [] recorded.capture))
unfolding create configure config_defaults channels_supported FrameQueue.init Capture.frame_bytes
    start fresh Control.init callbacks wait_for state_callback resolve_target ready
    query_default_sink server_query server_info_callback wait collect make_alarm try_ring
    query_monitor sink_query sink_info_callback publish_format get_format dump put_header put_u32le
    put_u16le fwrite record_frames read_frame loop follow round fixed_round with_deadline sleep_us
    due_round acts act Capture.frame_period FrameQueue.close FrameQueue.pop FrameQueue.take_frame
    put_sizes AllSleepEnough
main_exits_example = main_exits world handle begun [] refl refl refl refl (omega arith, tt)
