-- ===== src/Store/Tests.antt =====
-- Runs of src/lmqtt_store.c on small stores.
use lightmqtt.Prelude.{
  ℕ, ◌≡◌, refl, arith, true, false, none, some, List, [], ◌∷◌, ◌⊎◌, ◌-◌, ◌+◌, ◌*◌,
}
use lightmqtt.Prelude.{◌||◌, ◌==◌}
use lightmqtt.Prelude.Int.{pos, pos_part, neg_part}
use lightmqtt.Time.{Time}
use lightmqtt.Time.Remaining.{due, past}
use lightmqtt.Store.Defs.{
  Store, Entry, StoreValue, zero_value, zero_entry, store_pop_marked_by, store_count,
}
use lightmqtt.Store.Defs.{store_get_id, store_touch, store_get_timeout}
use lightmqtt.Store.Valid.{IsValid, queue}
use lightmqtt.Store.Sessions.{
  Op, append, delete_at, peek, mark_current, drop_current, shift, unmark_all, pop_marked_by, run,
  queue_run, step, queue_step, run_refines, step_refines,
}
use lightmqtt.Store.Timer.{period, at_epoch, touch-get_timeout}

abbrev value : ℕ → StoreValue
value id = record zero_value { packet_id = id }

abbrev entry : ℕ → ℕ → Entry
entry kind id = record { kind = kind; value = value id }

-- Room for three packets; a PUBLISH was sent, a SUBSCRIBE waits.
abbrev two_of_three : Store
two_of_three = record {
  keep_alive = 10;
  timeout = 5;
  next_packet_id = 65535;
  last_touch = record { secs = pos 0; nsecs = pos 0 };
  count = 2;
  pos = 1;
  capacity = 3;
  entries = entry 202 7 ∷ entry 208 8 ∷ zero_entry ∷ [];
}

abbrev two_of_three-IsValid : IsValid two_of_three
two_of_three-IsValid = record {
  sent_in = omega arith;
  fits = omega arith;
  storage = omega arith;
  id_in = omega arith;
}

abbrev session : List Op
session =
    append 209 (some (value 9))
    ∷ append 211 none
    ∷ peek
    ∷ mark_current
    ∷ pop_marked_by 202 7
    ∷ pop_marked_by 202 7
    ∷ delete_at 1
    ∷ unmark_all
    ∷ drop_current
    ∷ shift
    ∷ []

run_refines_example : run two_of_three session ≡ queue_run (queue two_of_three) session
run_refines_example = run_refines session two_of_three two_of_three-IsValid

step_refines_example :
    let (r, s') = step two_of_three (pop_marked_by 202 7) in
    let (r', q) = queue_step (queue two_of_three) (pop_marked_by 202 7) in
    (r ≡ r') × (queue s' ≡ q) × IsValid s'
step_refines_example = step_refines two_of_three (pop_marked_by 202 7) two_of_three-IsValid

popped_value : (store_pop_marked_by two_of_three 202 7).0 ≡ true
unfolding store_pop_marked_by
popped_value = refl

popped_count : store_count (store_pop_marked_by two_of_three 202 7).2 ≡ 1
unfolding store_pop_marked_by store_count
popped_count = refl

id_wraps : (store_get_id two_of_three).1.next_packet_id ≡ 0
unfolding store_get_id
id_wraps = refl

abbrev at_hundred : Time
at_hundred = record { secs = pos 100; nsecs = pos 600_000_000 }

abbrev at_hundred_two : Time
at_hundred_two = record { secs = pos 102; nsecs = pos 100_000_000 }

touch-get_timeout_example :
    let r = store_get_timeout (store_touch two_of_three at_hundred) at_hundred_two in
    let left =
      due at_hundred (period two_of_three) at_hundred_two - past at_hundred at_hundred_two in
    ((((period two_of_three == 0) || at_epoch at_hundred) ≡ true)
      × (r ≡ record { armed = false; count = 0; secs = pos 0; nsecs = pos 0 }))
    ⊎ ((((period two_of_three == 0) || at_epoch at_hundred) ≡ false)
        × (r.armed ≡ true)
        × (r.count ≡ two_of_three.count)
        × (1_000_000_000 * pos_part r.secs + pos_part r.nsecs ≡ left)
        × (neg_part r.secs ≡ 0)
        × (neg_part r.nsecs ≡ 0))
touch-get_timeout_example =
    touch-get_timeout two_of_three at_hundred at_hundred_two
      (record { at_least = refl; below = omega arith })
      (record { at_least = refl; below = omega arith })
