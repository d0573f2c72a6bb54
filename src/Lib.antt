-- ===== src/Lib.antt =====
-- A model of the GStreamer plugin for AJA NTV2 capture devices (gst-plugin/aja), with its correctness
-- properties.
--
-- The plugin has two source elements, for video and audio, that share the inputs of a device. An input has
-- an object `NTV2GstAV` (gstntv2.cpp) that configures the device and runs a thread with the capture loop.
-- The loop takes buffers from pools, whose memory comes from an allocator (gstaja.cpp), has the device fill
-- them, and hands them to a callback of each element. The video source (gstajavideosrc.cpp) follows the
-- signal, maps the time of the stream to that of the pipeline, and queues the frames; the audio source
-- (gstajaaudiosrc.cpp) queues packets with times that it takes from the video source. The `create` of each, on
-- its streaming thread, takes what the queue holds. The modes that can be selected are rows of a table
-- (gstaja.cpp).
--
-- Prelude    shared names, Boolean tests on the native numbers, lists, masks of bits
-- Video      the video formats of the SDK that the plugin names, and what their names say of them
-- Mode       the mode table of gst-plugin/aja/gstaja.cpp, its lookup, its caps and those of the template
-- Capture    gst-plugin/aja/gstntv2.cpp: Init models `Init`, with its call of `SetupVideo` in Init/Setup,
--            Formats the format switches, Vpid and Timecode parts of the loop, Worker the loop
--            `ACInputWorker`, as a function of a record of what a round reads and a list of the actions that
--            it takes, Lifecycle `Open`, `Close`, `Run` and `Quit`, AudioSetup `InitAudio`, Routing
--            `SetupVideo`
-- Audio      gst-plugin/aja/gstajaaudiosrc.cpp: Receive models `got_packet`, Output `create` and the calls
--            that empty the queue, with `finalize`, Ledger any history of these calls: the account
--            of the buffers, their order, and the end of a source
-- VideoSource  gst-plugin/aja/gstajavideosrc.cpp: Mapping models `update_time_mapping`, Receive `got_frame`,
--            Output `create` and `finalize`, with Color, Timecode and Vbi for its parts, Ledger any history of
--            these calls, as for the audio source, and from the capture loop on
-- Elements   the states of both sources and the input that they share: `start`, `stop`, `close` and
--            `start_streams`, Opening and States `open`, States `change_state` and histories of it
-- Query      the latency query and `get_caps` of both sources
-- Property   the properties of both sources, with their ranges and defaults: `class_init`, `init`, `set_property`
--            and `get_property`
-- Pool       `GstAjaBufferPool` and `GstAjaNvmmBufferPool` of gst-plugin/aja/gstaja.cpp, with the calls of
--            gst-plugin/aja/gstntv2.cpp that acquire buffers
-- Provider   gst-plugin/aja/gstajadeviceprovider.cpp: `probe`, `device_new` and `create_element`
-- Allocator  `GstAjaAllocator` of gst-plugin/aja/gstaja.cpp and its histories
-- Clock      `gst_aja_clock_get_internal_time` of gst-plugin/aja/gstaja.cpp
-- Registry   `gst_aja_acquire_input` of gst-plugin/aja/gstaja.cpp, for what the table of devices answers
-- Tests      runs of the theorems on concrete inputs
--
-- A C integer of w bits is a natural number with `% 2 ^ w` written out where the code can wrap. A function
-- that changes an object takes and returns it. What the device, the SDK and GStreamer answer is an argument:
-- the readings of a round (`Tick`), the arithmetic of times (`ClockMath`), the hardware clock, the addresses
-- of new memory. What other threads do to the device object between two rounds is a list of
-- `Interference`s. Each call under a lock is one step. Loops are structural recursion over the list that
-- they use up, or over the number of polls that are left (300 in `Quit`), so that none runs out of fuel; the
-- capture loop runs over a history of its rounds.
--
-- The ring of samples has the size of the window. The frames that tell of a change of the signal are put into
-- the queue with no lock; such a call is one step too, between two steps of the streaming thread.
--
-- Not modelled: log messages; what the device makes of the calls that set it up and of the connections;
-- the NVMM and RDMA path of the capture loop; failing allocations; the sinks, which the plugin does not
-- register; the names of types and enumerations that GObject shows; the assertion of `got_packet` that the video
-- source has its `first_time`, where the model goes on with the number that stands for none.
pub mod Prelude
pub mod Video
pub mod VideoSource
pub mod Mode
pub mod Pool
pub mod Capture
pub mod Audio
pub mod Elements
pub mod Query
pub mod Property
pub mod Provider
pub mod Allocator
pub mod Registry
pub mod Clock
pub mod Tests
