-- ===== src/Tests/Inputs.antt =====
-- Runs for the registry of inputs.
use ntv2_gst.Prelude.{true, some, none, ◌≡◌, ◌↔◌, ◌⊎◌, ◌&&◌, ◌||◌}
use ntv2_gst.Registry.{Slot, is_none, acquire_slot}
use ntv2_gst.Registry.Acquire.{acquire_slot_lem}

-- An input with an audio source only.
abbrev test_slot : Slot
test_slot = record { has_av = true; audiosrc = some 7; videosrc = none }

-- A second audio source is given the video role.
acquire_slot_lem_example :
    (((acquire_slot 8 true test_slot).1 ≡ true)
      ↔ ((true && is_none test_slot.audiosrc || is_none test_slot.videosrc) ≡ true))
    × ((test_slot.audiosrc ≡ none)
        ⊎ ((acquire_slot 8 true test_slot).0.audiosrc ≡ test_slot.audiosrc))
    × ((test_slot.videosrc ≡ none)
        ⊎ ((acquire_slot 8 true test_slot).0.videosrc ≡ test_slot.videosrc))
acquire_slot_lem_example = acquire_slot_lem 8 true test_slot
