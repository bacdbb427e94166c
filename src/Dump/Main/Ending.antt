-- ===== src/Dump/Main/Ending.antt =====
-- When examples/webacap-dump.c exits, and what with.
use linux_web_audio_capture.Base.{true, ◌≡◌, ◌∙◌, ap, inl, inr, some, Bytes}
use linux_web_audio_capture.Format.{ok}
use linux_web_audio_capture.Capture.{Capture}
use linux_web_audio_capture.Capture.Create.{config_defaults, configure, created, create}
use linux_web_audio_capture.Capture.Create.Accepting.{create-configured}
use linux_web_audio_capture.Api.{started, start, destroy}
use linux_web_audio_capture.Api.Queries.{get_format}
use linux_web_audio_capture.Api.Starting.{start_lem}
use linux_web_audio_capture.Dump.{frame_bytes, dump}
use linux_web_audio_capture.Dump.Ending.{AllSleepEnough, dump-in_call}
use linux_web_audio_capture.Dump.Main.{
  path, sink_asked, turns_of, World, exits, with_buffer, with_format, with_started, with_handle,
  main,
}

-- The defaults ask for fixed-rate output, and the capture that was started has it.
started-fixed_rate :
    (w : World) (handle c : Capture)
    → create w.room w.has_handle true (some (record config_defaults { sink = sink_asked w }))
      ≡ created handle
    → start w.connect w.server w.failed_start handle ≡ started ok c
    → c.fixed_rate ≡ true
unfolding configure config_defaults
started-fixed_rate w handle c made begun =
    elim (start_lem w.connect w.server w.failed_start handle begun) [
      | inl (_, running) ↦
          let (q, e) =
            create-configured w.room w.has_handle true
              (some (record config_defaults { sink = sink_asked w })) made in
          running.rate ∙ ap (λ h. h.fixed_rate) e
      | inr (failed, _, _, _) ↦ cc (failed)
    ]

-- A run of examples/webacap-dump.c comes to its end: where the handle is created and started, the
-- buffer is allocated and the file opened, it exits with 0, leaves the file of its recording and
-- destroys the handle, if each call of the loop has two rounds at least and its sleep lasts as long
-- as it asks for.
pub main_exits :
    (w : World) (handle c : Capture) (buffer : Bytes)
    → create w.room w.has_handle true (some (record config_defaults { sink = sink_asked w }))
      ≡ created handle
    → start w.connect w.server w.failed_start handle ≡ started ok c
    → w.malloc (frame_bytes c.format_info) ≡ some buffer
    → w.can_open (path w) ≡ true
    → AllSleepEnough c.format_info (turns_of w) buffer c
    → let d = dump c.format_info (turns_of w) buffer c in
      main w ≡ exits 0 (some d.out.content) (some (destroy w.during_stop w.at_disconnect d.capture))
unfolding main with_handle with_started with_format with_buffer get_format
main_exits w handle c buffer made begun has_buffer opens enough =
    let over =
      dump-in_call c.format_info (turns_of w) buffer c (started-fixed_rate w handle c made begun)
        enough in
    rw (made, begun, has_buffer, opens, over)
