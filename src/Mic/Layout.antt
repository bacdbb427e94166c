-- ===== src/Mic/Layout.antt =====
-- The channel layouts of src/pulse_mic.cpp.
use linux_web_audio_capture.Base.{
  ℕ, zero, suc, true, false, ◌≡◌, refl, ◌≢◌, arith, none, some, List, [], ◌∷◌, length, inl, inr,
  ◌⊎◌,
}
use linux_web_audio_capture.Mic.{
  Position, mono, stereo_map, surround51_map, surround71_map, ChannelMap, build_channel_map,
  channels_supported,
}

abbrev Absent : Position → List Position → Type 0
Absent p [] = Unit {0}
Absent p (q ∷ qs) = (p ≢ q) × Absent p qs

abbrev pub Distinct : List Position → Type 0
Distinct [] = Unit {0}
Distinct (p ∷ ps) = Absent p ps × Distinct ps

-- `channels_supported` accepts exactly the counts for which `build_channel_map` succeeds, and the
-- map of an accepted count has that many channels, that many positions, and no position twice.
pub channel_map_of_supported :
    (channels : ℕ)
    → ((channels_supported channels ≡ false) × (build_channel_map channels ≡ none))
      ⊎ ((channels_supported channels ≡ true)
          × ((m : ChannelMap) × (build_channel_map channels ≡ some m)
              × (m.channels ≡ channels)
              × (length m.positions ≡ channels)
              × Distinct m.positions))
unfolding channels_supported build_channel_map
channel_map_of_supported zero = inl (refl, refl)
channel_map_of_supported (suc zero) =
    inr (refl, (record { channels = 1; positions = mono ∷ [] }, refl, refl, refl, ground arith))
channel_map_of_supported (suc (suc zero)) =
    inr (refl, (record { channels = 2; positions = stereo_map }, refl, refl, refl, ground arith))
channel_map_of_supported (suc (suc (suc zero))) = inl (refl, refl)
channel_map_of_supported (suc (suc (suc (suc zero)))) = inl (refl, refl)
channel_map_of_supported (suc (suc (suc (suc (suc zero))))) = inl (refl, refl)
channel_map_of_supported (suc (suc (suc (suc (suc (suc zero)))))) =
    inr
      (refl, (record { channels = 6; positions = surround51_map }, refl, refl, refl, ground arith))
channel_map_of_supported (suc (suc (suc (suc (suc (suc (suc zero))))))) = inl (refl, refl)
channel_map_of_supported (suc (suc (suc (suc (suc (suc (suc (suc zero)))))))) =
    inr
      (refl, (record { channels = 8; positions = surround71_map }, refl, refl, refl, ground arith))
channel_map_of_supported (suc (suc (suc (suc (suc (suc (suc (suc (suc n))))))))) =
    inl (ground arith, ground arith)
