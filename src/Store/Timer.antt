-- ===== src/Store/Timer.antt =====
-- The timer of the store: `lmqtt_store_touch` starts it, `lmqtt_store_get_timeout` reads it.
use lightmqtt.Prelude.{ℕ, ◌+◌, ◌-◌, ◌*◌, ◌≡◌, ◌⊎◌, arith}
use lightmqtt.Prelude.{Bool, true, false, ◌&&◌, ◌||◌, ltb, ◌==◌, if◌then◌else◌}
use lightmqtt.Prelude.Int.{pos, pos_part, neg_part}
use lightmqtt.Time.{Time}
use lightmqtt.Time.Remaining.{IsNormal, due, past, time_get_timeout_to_exact}
use lightmqtt.Store.Defs.{Store, is_zero, store_touch, store_get_timeout}

-- The period that applies: with packets in the store their timeout, otherwise the keep-alive.
abbrev pub period : Store → ℕ
period s = if ltb 0 s.count then s.timeout else s.keep_alive

-- The clock reads the epoch, which the store takes for "never touched".
abbrev pub at_epoch : Time → Bool
at_epoch t = is_zero t.secs && is_zero t.nsecs

-- After a touch at the clock reading `now`, a reading of the timer at `later` says that it is off,
-- with a count and a time of 0, if the period is 0 or `now` was the epoch. Otherwise it is on, with
-- the number of entries and the exact rest of the period in nanoseconds, 0 once it has passed.
pub touch-get_timeout :
    (s : Store) (now later : Time)
    → IsNormal now
    → IsNormal later
    → let r = store_get_timeout (store_touch s now) later in
      let left = due now (period s) later - past now later in
      ((((period s == 0) || at_epoch now) ≡ true)
        × (r ≡ record { armed = false; count = 0; secs = pos 0; nsecs = pos 0 }))
      ⊎ ((((period s == 0) || at_epoch now) ≡ false)
          × (r.armed ≡ true)
          × (r.count ≡ s.count)
          × (1_000_000_000 * pos_part r.secs + pos_part r.nsecs ≡ left)
          × (neg_part r.secs ≡ 0)
          × (neg_part r.nsecs ≡ 0))
unfolding store_touch store_get_timeout
touch-get_timeout s now later a b = ground (
  arith,
  time_get_timeout_to_exact now later s.timeout,
  time_get_timeout_to_exact now later s.keep_alive,
)
