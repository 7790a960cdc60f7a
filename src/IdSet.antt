-- ===== src/IdSet.antt =====
-- src/lmqtt_packet.c, `lmqtt_id_set_t`: the packet ids of the QoS 2 messages that were received and
-- not yet released. `items` is the memory from the pointer `items` on, behind the `capacity`
-- elements of the array too. Packet ids are unsigned shorts.
pub mod Laws
pub mod Overrun
mod Tests
use lightmqtt.Prelude.{ℕ, zero, suc, ◌+◌, ◌-◌, ◌*◌, Bool, true, false, Option, none, some}
use lightmqtt.Prelude.{List, [], ◌∷◌, set, move_down, ltb, ◌==◌, if◌then◌else◌}

pub record IdSet : Type 0 where
  pub items : List ℕ
  pub capacity : ℕ
  pub count : ℕ

-- `lmqtt_id_set_clear`
unfoldable pub id_set_clear : IdSet → IdSet
id_set_clear s = record s { count = 0 }

-- The loop that all three searches run: the place of `id` among the next `n` items, which stand at
-- the places from `i` on.
unfoldable pub id_set_find : List ℕ → ℕ → ℕ → ℕ → Option ℕ
id_set_find xs zero i id = none
id_set_find [] (suc n) i id = none
id_set_find (x ∷ xs) (suc n) i id = if x == id then some i else id_set_find xs n (i + 1) id

-- `lmqtt_id_set_contains`
unfoldable pub id_set_contains : IdSet → ℕ → Bool
unfolding id_set_find
id_set_contains s id = elim (id_set_find s.items s.count 0 id) [ some i ↦ true | none ↦ false ]

-- `lmqtt_id_set_put`
unfoldable pub id_set_put : IdSet → ℕ → Bool × IdSet
unfolding id_set_find
id_set_put s id =
    if ltb s.count s.capacity
    then elim (id_set_find s.items s.count 0 id) [
      | some i ↦ (false, s)
      | none ↦ (true, record s { items = set s.items s.count id; count = s.count + 1 })
    ]
    else (false, s)

-- `sizeof(&id_set->items[0]) / sizeof(id_set->items[0])`: a pointer has 8 bytes, an item 2.
abbrev pub items_per_pointer : ℕ
items_per_pointer = 4

-- `lmqtt_id_set_remove`: the size of the `memmove` is counted in pointers.
unfoldable pub id_set_remove : IdSet → ℕ → Bool × IdSet
unfolding id_set_find
id_set_remove s id = elim (id_set_find s.items s.count 0 id) [
  | some i ↦ (
    true,
    record s {
      items = move_down s.items i (items_per_pointer * (s.count - i - 1));
      count = s.count - 1;
    },
  )
  | none ↦ (false, s)
]
