-- ===== src/Capture/Timecode.antt =====
-- The choice of the timecode source in `NTV2GstAV::ACInputWorker` of gst-plugin/aja/gstntv2.cpp.
use ntv2_gst.Prelude.{ℕ, Bool, true, false, Option, none, some, ◌==◌, ltb, if◌then◌else◌}
use ntv2_gst.Capture.Defs.{TcIndex, TcIndex-discrete}

-- The channel of the inner switch: its `default` is channel 1.
abbrev pub tc_channel : ℕ → ℕ
tc_channel c = if ltb c 8 then c else 0

-- The inner switch: NTV2_TCINDEX_SDI1 and NTV2_TCINDEX_SDI1_LTC ask for the LTC of the channel, all else
-- for its second VITC.
abbrev channel_index : ℕ → TcIndex → TcIndex
channel_index c TcIndex.tc_sdi1 = TcIndex.sdi_ltc (tc_channel c)
channel_index c (TcIndex.sdi_ltc n) =
    if n == 0 then TcIndex.sdi_ltc (tc_channel c) else TcIndex.sdi_2 (tc_channel c)
channel_index c _ = TcIndex.sdi_2 (tc_channel c)

-- The index that is read for the configured mode, on a channel.
unfoldable pub tc_index_for : ℕ → TcIndex → TcIndex
tc_index_for c TcIndex.ltc1 = TcIndex.ltc1
tc_index_for c TcIndex.ltc2 = TcIndex.ltc2
tc_index_for c m = channel_index c m

-- Whether the mode makes the worker enable the analog LTC input.
unfoldable pub enables_ltc : TcIndex → Bool
enables_ltc TcIndex.ltc1 = true
enables_ltc TcIndex.ltc2 = true
enables_ltc _ = false

-- `configuredTcIndex == -1 || configuredTcIndex != mTimecodeMode`.
unfoldable pub tc_changed : Option TcIndex → TcIndex → Bool
tc_changed none m = true
tc_changed (some k) m = elim (TcIndex-discrete k m) [ yes _ ↦ false | no _ ↦ true ]
