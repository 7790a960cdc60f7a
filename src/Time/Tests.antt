-- ===== src/Time/Tests.antt =====
-- Runs of src/lmqtt_time.c.
use lightmqtt.Prelude.{◌≡◌, refl, arith, true, ◌-◌, ◌+◌, ◌*◌, ◌<◌, ltb, if◌then◌else◌}
use lightmqtt.Prelude.Int.{pos, pos_part, neg_part, ◌+ℤ◌, ◌-ℤ◌}
use lightmqtt.Time.{Time, time_get_timeout_to}
use lightmqtt.Time.Remaining.{due, past, time_get_timeout_to_exact}

abbrev at_ten : Time
at_ten = record { secs = pos 10; nsecs = pos 300_000_000 }

abbrev at_fourteen : Time
at_fourteen = record { secs = pos 14; nsecs = pos 800_000_000 }

-- Half a second is left of five.
half_left :
    time_get_timeout_to at_ten at_fourteen 5
    ≡ record { armed = true; secs = pos 0; nsecs = pos 500_000_000 }
unfolding time_get_timeout_to ◌+ℤ◌ ◌-ℤ◌
half_left = refl

time_get_timeout_to_exact_example :
    let r = time_get_timeout_to at_ten at_fourteen 5 in
    (r.armed ≡ true)
    × (neg_part r.secs ≡ 0)
    × (neg_part r.nsecs ≡ 0)
    × (pos_part r.nsecs < 1_000_000_000)
    × (1_000_000_000 * pos_part r.secs + pos_part r.nsecs ≡ (
        if ltb (past at_ten at_fourteen) (due at_ten 5 at_fourteen)
        then due at_ten 5 at_fourteen - past at_ten at_fourteen
        else 0))
time_get_timeout_to_exact_example =
    time_get_timeout_to_exact at_ten at_fourteen 5 (record { at_least = refl; below = omega arith })
      (record { at_least = refl; below = omega arith }) (omega arith)
