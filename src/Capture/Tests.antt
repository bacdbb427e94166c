-- ===== src/Capture/Tests.antt =====
-- The library of src/capture.cpp: a handle made with the defaults, and reads from it.
use mathlib.Core.List.{Memᴰ}
use linux_web_audio_capture.Base.{
  ℕ, ◌+◌, ◌*◌, ◌≤◌, ◌<◌, ◌^◌, Bool, true, false, ◌≡◌, refl, ◌⊎◌, inl, inr, ◌↔◌, arith, Option, none,
  some, List, [], ◌∷◌, Bytes, pos, length, overwrite, replicate, u64,
}
use linux_web_audio_capture.CondVar.{wait_for}
use linux_web_audio_capture.Format.{s16le, err_nomem, err_state}
use linux_web_audio_capture.FrameQueue
use linux_web_audio_capture.FrameQueue.{FrameQueue, max_size}
use linux_web_audio_capture.FrameQueue.Inv.{IsValid}
use linux_web_audio_capture.FrameQueue.Refine.{contents}
use linux_web_audio_capture.Mic
use linux_web_audio_capture.Capture.{
  Capture, act, closes, requests_stop, pushes, frame_bytes, frame_period, acts,
}
use linux_web_audio_capture.Capture.Create.{
  Config, fresh, configure, create, created, threw, not_created,
}
use linux_web_audio_capture.Capture.Create.Accepting.{
  Sound, Acceptable, storage_size, create-Sound, create_ways,
}
use linux_web_audio_capture.Capture.Read.Stream.{Patient, AllPatient, every_call_gives}
use linux_web_audio_capture.Capture.Read.{
  plain_round, FrameInfo, Round, Local, Call, read_error, return, due_round, loop, read_frame,
  follow, sleep_us, with_deadline, fixed_round, round, deliver, next_deadline_after,
}
use linux_web_audio_capture.Capture.Read.Cadence.{Paces}
use linux_web_audio_capture.Capture.Read.Session.{Input, run, cadence}
use linux_web_audio_capture.Capture.Read.Content.{Delivers, found_queue, waiting_flags, due_frame}
use linux_web_audio_capture.Capture.Read.Timeout.{honest_timeout}
use linux_web_audio_capture.Capture.Read.Ending.{Finished, read_frame-Finished, stop_keeps_looping}

abbrev roomy : ℕ → Bool
roomy n = true

-- One channel of 16 bit samples, two samples a frame, at 1000 samples a second.
abbrev small : Config
small = record {
  sample_rate = 1000;
  channels = 1;
  format = s16le;
  frame_samples = 2;
  sink = none;
  ring_frames = 2;
  fixed_rate = pos 1;
  sink_recheck_ms = 0;
}

abbrev made : Capture
made = record (configure (some small) fresh) {
  queue = FrameQueue.sized (0 ∷ 0 ∷ 0 ∷ 0 ∷ 0 ∷ 0 ∷ 0 ∷ 0 ∷ []) 4 2;
}

create-Sound_example : Sound made
unfolding create configure fresh frame_bytes FrameQueue.init Mic.channels_supported
create-Sound_example = create-Sound roomy true true (some small) (omega arith) refl

small-Acceptable : Acceptable (configure (some small) fresh)
unfolding configure fresh frame_bytes Mic.channels_supported
small-Acceptable = record {
  rate = omega arith;
  samples = omega arith;
  layout = refl;
  known = refl;
  nonempty = omega arith;
}

create_ways_example :
    ((max_size < u64 (storage_size (configure (some small) fresh)))
      × (create roomy true true (some small) ≡ threw))
    ⊎ ((u64 (storage_size (configure (some small) fresh)) ≤ max_size)
        × (roomy (u64 (storage_size (configure (some small) fresh))) ≡ true)
        × ((d : Capture) × (create roomy true true (some small) ≡ created d)
            × (length d.queue.storage ≡ u64 (storage_size (configure (some small) fresh)))
            × ((length d.queue.storage < d.queue.capacity * d.queue.slot_bytes)
                ↔ (2 ^ 64 ≤ storage_size (configure (some small) fresh)))))
    ⊎ ((u64 (storage_size (configure (some small) fresh)) ≤ max_size)
        × (roomy (u64 (storage_size (configure (some small) fresh))) ≡ false)
        × (create roomy true true (some small) ≡ not_created err_nomem))
create_ways_example = create_ways roomy (some small) small-Acceptable

-- A capture that runs, with its first deadline at 5 ms and one frame queued.
abbrev running : Capture
running = record made {
  running = true;
  deadline_valid = true;
  next_deadline = 5_000_000;
  pending_flags = 9;
  queue = record made.queue { count = 1; dropped = 3 };
}

abbrev round_at : ℕ → Round
round_at now = record {
  before = requests_stop ∷ closes ∷ [];
  now = now;
  during_pop = [];
  between = [];
  after = now;
}

abbrev quiet_round_at : ℕ → Round
quiet_round_at now = record (round_at now) { before = [] }

abbrev input : Input
input = record {
  before = [];
  dst = some (7 ∷ 7 ∷ 7 ∷ 7 ∷ 7 ∷ []);
  dst_capacity_frames = 2;
  wants_info = true;
  timeout_ms = pos 100;
  entered = 4_000_000;
  rounds = round_at 4_000_000 ∷ round_at 6_000_000 ∷ [];
}

running-Paces : Paces 5_000_000 2_000_000 running
unfolding configure fresh frame_period
running-Paces = record { fixed = refl; valid = refl; deadline = refl; period = refl }

-- After a call that gave a frame at 6 ms, the next gives one at 9 ms.
abbrev next_input : Input
next_input = record input {
  entered = 6_000_000;
  rounds = round_at 6_000_000 ∷ round_at 9_000_000 ∷ [];
  before = pushes (1 ∷ 2 ∷ 3 ∷ 4 ∷ []) ∷ [];
}

abbrev early_input : Input
early_input = record input { rounds = quiet_round_at 4_000_000 ∷ quiet_round_at 6_000_000 ∷ [] }

cadence_example :
    (r : Round) × Memᴰ r next_input.rounds
    × (5_000_000 + (run (early_input ∷ []) running).0 * 2_000_000 ≤ r.now)
unfolding run read_frame loop follow round fixed_round with_deadline sleep_us due_round deliver acts
    act FrameQueue.pop FrameQueue.take_frame wait_for configure fresh FrameQueue.push
    FrameQueue.make_room FrameQueue.append frame_period next_deadline_after FrameQueue.close
cadence_example =
    cadence (early_input ∷ []) next_input 5_000_000 2_000_000 running running-Paces refl

abbrev info_call : Call
info_call = record { wants_info = true; call_deadline = 9_000_000 }

abbrev local : Local
local = record { capture = running; dst = 7 ∷ 7 ∷ 7 ∷ 7 ∷ 7 ∷ []; total = 0 }

running-IsValid : IsValid running.queue
running-IsValid = record {
  stored = refl;
  addressable = omega arith;
  slots = omega arith;
  nonempty_slots = omega arith;
  bounded = omega arith;
  in_ring = omega arith;
}

due_frame_example :
    let r = round_at 6_000_000 in
    let q = found_queue r running in
    ((f : Bytes) × (fs : List Bytes) × (contents q ≡ f ∷ fs)
      × Delivers r
          (waiting_flags r running)
          (u64 (0 + q.dropped))
          false
          (overwrite local.dst 0 f)
          (due_round info_call r local))
    ⊎ ((contents q ≡ [])
        × (q.closed ≡ false)
        × Delivers r
            (waiting_flags r running)
            (u64 (0 + q.dropped))
            true
            (overwrite local.dst 0 (replicate (frame_bytes running) 0))
            (due_round info_call r local))
    ⊎ ((contents q ≡ [])
        × (q.closed ≡ true)
        × ((c : Capture) × (due_round info_call r local
              ≡ return (read_error err_state) local.dst none c)))
due_frame_example = due_frame info_call (round_at 6_000_000) local refl running-IsValid (inr refl)

read_frame-Finished_example : Finished (
    read_frame running
      (some local.dst)
      2
      true
      (pos 100)
      4_000_000
      (round_at 4_000_000 ∷ round_at 6_000_000 ∷ []))
unfolding configure fresh acts act sleep_us with_deadline
read_frame-Finished_example =
    read_frame-Finished running (some local.dst) 2 true (pos 100) 4_000_000 (round_at 4_000_000)
      (round_at 6_000_000) [] refl (omega arith)

-- A stop at 1 ms, and two more rounds, while the frame is due at 5 ms.
stop_keeps_looping_example :
    Finished (loop info_call (round_at 1_000_000 ∷ round_at 1_000_000 ∷ []) local) → ⊥
unfolding configure fresh sleep_us
stop_keeps_looping_example =
    stop_keeps_looping info_call (round_at 1_000_000 ∷ round_at 1_000_000 ∷ []) local refl refl
      (omega arith, omega arith, (omega arith, omega arith, tt))

-- Without fixed-rate output and with an empty queue: a wait that ends early, and one that does not.
abbrev plain : Capture
plain = record running { fixed_rate = false; queue = record made.queue { count = 0 } }

abbrev waits : List Round
waits = quiet_round_at 50_000_000 ∷ quiet_round_at 200_000_000 ∷ []

abbrev no_info : Option FrameInfo
no_info = none

honest_timeout_example :
    (local.dst ≡ local.dst)
    × (no_info ≡ none)
    × ((r : Round) × Memᴰ r waits × (4_000_000 + 100_000_000 ≤ r.after))
unfolding configure fresh read_frame loop follow round plain_round acts FrameQueue.pop
    FrameQueue.take_frame wait_for
honest_timeout_example =
    honest_timeout plain local.dst 2 true (pos 100) 4_000_000 waits {info = none} refl refl

-- A call that enters at 4 ms and gives the frame of 5 ms at 6 ms. A stop is requested meanwhile, and wakes its
-- sleep.
abbrev woken_input : Input
woken_input = record input {
  rounds =
      quiet_round_at 4_000_000
      ∷ record (quiet_round_at 4_100_000) { before = requests_stop ∷ [] }
      ∷ quiet_round_at 6_000_000
      ∷ [];
}

woken_input-Patient : Patient running woken_input
unfolding configure fresh
woken_input-Patient = record {
  buffer = 7 ∷ 7 ∷ 7 ∷ 7 ∷ 7 ∷ [];
  dst = refl;
  room = omega arith;
  before = tt;
  time = omega arith;
  rounds = ((tt, tt, tt), inr ((tt, tt, tt), inr ((tt, tt, tt), inl (omega arith))));
}

every_call_gives_example : (run (woken_input ∷ []) running).0 ≡ 1
unfolding configure fresh AllPatient
every_call_gives_example =
    every_call_gives (woken_input ∷ []) 5_000_000 2_000_000 running running-Paces (refl, refl)
      (woken_input-Patient, tt)
