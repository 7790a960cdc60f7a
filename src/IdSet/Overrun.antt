-- ===== src/IdSet/Overrun.antt =====
-- What `lmqtt_id_set_remove` does to the memory behind the array: its `memmove` counts pointers.
use lightmqtt.Prelude.{ℕ, suc, ◌+◌, ◌-◌, ◌*◌, ◌≤◌, ◌<◌, ◌≡◌, some, arith}
use lightmqtt.Prelude.{length, get_elem?, get_elem?-move_down}
use lightmqtt.IdSet.{IdSet, id_set_find, id_set_remove}

-- Where the id stands at place `i`, every place `j` behind the array that lies less than
-- `4 * (count - i - 1)` places above `i` is overwritten by the item above it.
pub remove_overruns :
    (s : IdSet) (a i j : ℕ)
    → id_set_find s.items s.count 0 a ≡ some i
    → s.capacity ≤ j
    → i ≤ j
    → j < i + 4 * (s.count - i - 1)
    → suc j < length s.items
    → get_elem? (id_set_remove s a).1.items j ≡ get_elem? s.items (suc j)
unfolding id_set_remove
remove_overruns s a i j found above low high inside =
    ground (arith, found, get_elem?-move_down s.items i (4 * (s.count - i - 1)) j)
