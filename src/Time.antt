-- ===== src/Time.antt =====
-- src/lmqtt_time.c: the time left until a deadline. The clock is the client's callback `get_time`;
-- a call of it is the argument `now`, the two values that it stores. `long` is an integer.
pub mod Remaining
mod Tests
use lightmqtt.Prelude.{ℕ, Bool, true, false, ◌==◌, if◌then◌else◌}
use lightmqtt.Prelude.Int.{ℤ, pos, ◌+ℤ◌, ◌-ℤ◌, ltb_ℤ}

-- `lmqtt_time_t`
pub record Time : Type 0 where
  pub secs : ℤ
  pub nsecs : ℤ

-- The returned int, and what goes through `secs` and `nsecs`.
pub record Timeout : Type 0 where
  pub armed : Bool
  pub secs : ℤ
  pub nsecs : ℤ

-- The deadline, with a second borrowed for the subtraction of the nanoseconds.
abbrev pub deadline : Time → Time → ℕ → Time
deadline tm now when =
    if ltb_ℤ tm.nsecs now.nsecs
    then record { secs = tm.secs +ℤ pos when -ℤ pos 1; nsecs = tm.nsecs +ℤ pos 1_000_000_000 }
    else record { secs = tm.secs +ℤ pos when; nsecs = tm.nsecs }

-- `lmqtt_time_get_timeout_to`
unfoldable pub time_get_timeout_to : Time → Time → ℕ → Timeout
time_get_timeout_to tm now when =
    let tmo = deadline tm now when in
    if when == 0
    then record { armed = false; secs = pos 0; nsecs = pos 0 }
    else if ltb_ℤ tmo.secs now.secs
    then record { armed = true; secs = pos 0; nsecs = pos 0 }
    else record { armed = true; secs = tmo.secs -ℤ now.secs; nsecs = tmo.nsecs -ℤ now.nsecs }

-- `lmqtt_time_touch`: the clock is stored.
unfoldable pub time_touch : Time → Time → Time
time_touch tm now = now
