-- ===== src/Clock.antt =====
-- `gst_aja_clock_get_internal_time` of gst-plugin/aja/gstaja.cpp, for a clock with an output. The call runs
-- under the lock of the output. The offset is a signed number of 64 bits, kept as its bits.
use ntv2_gst.Prelude.{
  ℕ, ◌+◌, ◌-◌, ◌^◌, max, Bool, false, ltb, ◌==◌, if◌then◌else◌, Option, none, some,
}
use ntv2_gst.Capture.Worker.{u64}

-- The members of `GstAjaOutput` that the call uses.
pub record Output : Type 0 where
  pub started : Bool
  pub clock_start_time : Option ℕ
  pub clock_last_time : ℕ
  pub clock_offset : ℕ
  pub clock_restart : Bool
  pub clock_epoch : ℕ

-- The start time: the first reading sets it.
abbrev pub start_of : Option ℕ → ℕ → ℕ
start_of none time = time
start_of (some t) time = t

-- A start time that a reading sets could be the number that stands for none.
abbrev pub stored_start : ℕ → Option ℕ
stored_start t = if t == 2 ^ 64 - 1 then none else some t

-- The time since the start.
abbrev pub elapsed : ℕ → ℕ → ℕ
elapsed start time = if ltb start time then time - start else 0

-- The time behind the last one, with an offset taken off.
abbrev pub corrected : ℕ → ℕ → ℕ → ℕ
corrected last offset result = max last (u64 (max last result + 2 ^ 64 - offset))

-- A reading of a hardware clock that runs.
unfoldable pub read_hardware : Output → ℕ → Output
read_hardware o time =
    let start = start_of o.clock_start_time time in
    let result = elapsed start time in
    let offset =
      if o.clock_restart then u64 (result + 2 ^ 64 - o.clock_last_time) else o.clock_offset in
    record o {
      clock_start_time = stored_start start;
      clock_offset = offset;
      clock_restart = false;
      clock_last_time = corrected o.clock_last_time offset result;
    }

abbrev pub read_status : Output → Option ℕ → Output
read_status o none = o
read_status o (some time) = read_hardware o time

-- The output behind a call, for what `GetHardwareClock` answers.
unfoldable pub read_clock : Output → Option ℕ → Output
read_clock o hardware = if o.started then read_status o hardware else o

-- What the call returns.
unfoldable pub get_internal_time : Output → Option ℕ → ℕ
get_internal_time o hardware =
    let o' = read_clock o hardware in u64 (o'.clock_last_time + o'.clock_epoch)
