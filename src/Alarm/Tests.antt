-- ===== src/Alarm/Tests.antt =====
-- An alarm of src/primitives.h on which two callbacks ring.
use linux_web_audio_capture.Base.{ℕ, false, ◌≡◌, refl, Option, none, some, List, [], ◌∷◌}
use linux_web_audio_capture.CondVar.{Event, other, wake}
use linux_web_audio_capture.Alarm.{Alarm, bounded, delivered, wait}
use linux_web_audio_capture.Alarm.Delivery.{try_offer, wait-first_offer}

abbrev quiet : Alarm ℕ
quiet = record { raised = false; value = 0 }

-- A callback offers its number, or nothing.
abbrev callback : Option ℕ → Option ℕ
callback o = o

abbrev schedule : List (Event (Option ℕ))
schedule = wake ∷ other none ∷ other (some 4) ∷ other (some 5) ∷ wake ∷ []

wait-first_offer_example : (wait (try_offer callback) bounded schedule quiet).0 ≡ delivered 4
wait-first_offer_example = wait-first_offer callback bounded schedule quiet refl
