-- ===== src/Time/Remaining.antt =====
-- What `lmqtt_time_get_timeout_to` returns, measured in nanoseconds.
use lightmqtt.Prelude.{ℕ, ◌+◌, ◌-◌, ◌*◌, ◌<◌, ◌≡◌, true, arith, ltb, if◌then◌else◌}
use lightmqtt.Prelude.Int.{pos, pos_part, neg_part, ◌+ℤ◌, ◌-ℤ◌}
use lightmqtt.Prelude.Int.{parts_zero, +ℤ_parts, -ℤ_parts}
use lightmqtt.Time.{Time, time_get_timeout_to}

-- `0 <= nsecs < 1e9`, which POSIX promises of a clock.
pub record IsNormal (t : Time) : Type 0 where
  pub at_least : neg_part t.nsecs ≡ 0
  pub below : pos_part t.nsecs < 1_000_000_000

-- `when` seconds after `tm`, less `now`, as two counts of nanoseconds whose difference it is.
abbrev pub due : Time → ℕ → Time → ℕ
due tm when now = 1_000_000_000 * (pos_part tm.secs + when + neg_part now.secs) + pos_part tm.nsecs

abbrev pub past : Time → Time → ℕ
past tm now = 1_000_000_000 * (neg_part tm.secs + pos_part now.secs) + pos_part now.nsecs

-- With normal clock readings and a nonzero period, the call returns 1 and a normal,
-- non-negative time, which is the exact time left before the deadline, or 0 where it has passed.
pub time_get_timeout_to_exact :
    (tm now : Time) (when : ℕ)
    → IsNormal tm
    → IsNormal now
    → 0 < when
    → let r = time_get_timeout_to tm now when in
      (r.armed ≡ true)
      × (neg_part r.secs ≡ 0)
      × (neg_part r.nsecs ≡ 0)
      × (pos_part r.nsecs < 1_000_000_000)
      × (1_000_000_000 * pos_part r.secs + pos_part r.nsecs
          ≡ (if ltb (past tm now) (due tm when now) then due tm when now - past tm now else 0))
unfolding time_get_timeout_to
time_get_timeout_to_exact tm now when a b h = ground (
  arith,
  +ℤ_parts tm.secs (pos when),
  -ℤ_parts (tm.secs +ℤ pos when) (pos 1),
  +ℤ_parts tm.nsecs (pos 1_000_000_000),
  -ℤ_parts (tm.secs +ℤ pos when -ℤ pos 1) now.secs,
  -ℤ_parts (tm.secs +ℤ pos when) now.secs,
  -ℤ_parts (tm.nsecs +ℤ pos 1_000_000_000) now.nsecs,
  -ℤ_parts tm.nsecs now.nsecs,
  parts_zero (tm.secs +ℤ pos when -ℤ pos 1 -ℤ now.secs),
  parts_zero (tm.secs +ℤ pos when -ℤ now.secs),
  parts_zero (tm.nsecs +ℤ pos 1_000_000_000 -ℤ now.nsecs),
  parts_zero (tm.nsecs -ℤ now.nsecs),
)
