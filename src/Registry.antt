-- ===== src/Registry.antt =====
-- `gst_aja_acquire_input` of gst-plugin/aja/gstaja.cpp: the inputs that the elements share. The table
-- of devices is GLib's: what it answers for a specifier is an argument. An element is a number. The whole call
-- runs under the lock of the table.
pub mod Acquire
use ntv2_gst.Prelude.{
  ℕ, Bool, true, false, not, ◌&&◌, ltb, ◌==◌, if◌then◌else◌, Option, none, some, List, [], ◌∷◌,
}

-- The members of `GstAjaInput` that the call reads and writes.
pub record Slot : Type 0 where
  pub has_av : Bool  -- whether ntv2AV is there
  pub audiosrc : Option ℕ
  pub videosrc : Option ℕ

-- An input as `g_new0` makes it.
abbrev pub new_slot : Slot
new_slot = record { has_av = false; audiosrc = none; videosrc = none }

abbrev pub is_none {ℓ} : {A : Type ℓ} → Option A → Bool
is_none none = true
is_none (some _) = false

-- The call on its input: the new input, and whether it is returned.
unfoldable pub acquire_slot : ℕ → Bool → Slot → Slot × Bool
acquire_slot src is_audio input =
    let there : Slot = record input { has_av = true } in
    if is_audio && is_none input.audiosrc
    then (record there { audiosrc = some src }, true)
    else if is_none input.videosrc
    then (record there { videosrc = some src }, true)
    else (there, false)

-- A device: its inputs, by their channels.
abbrev pub Device : Type 0
Device = ℕ → Slot

abbrev pub new_device : Device
new_device channel = new_slot

abbrev pub set_input : Device → ℕ → Slot → Device
set_input device channel input c = if c == channel then input else device c

abbrev pub device_or_new : Option Device → Device
device_or_new none = new_device
device_or_new (some d) = d

-- The call, for NTV2_MAX_NUM_CHANNELS and what the table of devices answers for the specifier: the device that
-- the table holds afterwards, and whether its input of the channel is returned.
unfoldable pub acquire_input : ℕ → ℕ → ℕ → Bool → Option Device → Option Device × Bool
acquire_input max_channels channel src is_audio found =
    let device = device_or_new found in
    let r = acquire_slot src is_audio (device channel) in
    if ltb channel max_channels then (some (set_input device channel r.0), r.1) else (found, false)
