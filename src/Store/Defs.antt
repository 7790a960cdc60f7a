-- ===== src/Store/Defs.antt =====
-- The functions of src/lmqtt_store.c. One that changes `*store` returns the new store.
use lightmqtt.Prelude.{ℕ, zero, suc, ◌+◌, ◌-◌, ◌%◌, ◌^◌, Bool, true, false, ◌&&◌, ◌||◌}
use lightmqtt.Prelude.{Option, none, some, List, [], ◌∷◌, ltb, ◌==◌, if◌then◌else◌}
use lightmqtt.Prelude.{get_or, set, move_down}
use lightmqtt.Prelude.Int.{ℤ, pos}
use lightmqtt.Time.{Time, time_get_timeout_to, time_touch}

-- The functions that the program stores as `lmqtt_store_entry_callback_t`, all of src/lmqtt_client.c.
pub data Callback : Type 0 where
  on_connack on_suback on_unsuback on_publish on_pingresp : Callback

-- `lmqtt_store_value_t`; a `void *` is an address, or `none` for NULL.
pub record StoreValue : Type 0 where
  pub packet_id : ℕ
  pub value : Option ℕ
  pub callback : Option Callback
  pub callback_data : Option ℕ

-- `memset(&value, 0, sizeof(value))`
abbrev pub zero_value : StoreValue
zero_value = record { packet_id = 0; value = none; callback = none; callback_data = none }

-- `lmqtt_store_entry_t`
pub record Entry : Type 0 where
  pub kind : ℕ
  pub value : StoreValue

abbrev pub zero_entry : Entry
zero_entry = record { kind = 0; value = zero_value }

-- `lmqtt_store_t`, less the clock callback.
pub record Store : Type 0 where
  pub keep_alive : ℕ
  pub timeout : ℕ
  pub next_packet_id : ℕ
  pub last_touch : Time
  pub count : ℕ
  pub pos : ℕ
  pub capacity : ℕ
  pub entries : List Entry

-- A returned int with what goes through `kind` and `value`.
pub record Got : Type 0 where
  pub found : Bool
  pub kind : ℕ
  pub value : StoreValue

abbrev pub nothing : Got
nothing = record { found = false; kind = 0; value = zero_value }

abbrev pub got : Entry → Got
got e = record { found = true; kind = e.kind; value = e.value }

-- `lmqtt_store_get_at`
unfoldable pub store_get_at : Store → ℕ → Got
store_get_at s p = if ltb p s.count then got (get_or s.entries p zero_entry) else nothing

pub record Popped : Type 0 where
  pub out : Got
  pub store : Store

-- `store_pop_at`: `memmove` takes all entries of the array that stand behind the place down by one.
unfoldable pub store_pop_at : Store → ℕ → Popped
unfolding store_get_at
store_pop_at s p =
    let out = store_get_at s p in
    if out.found
    then record {
      out = out;
      store = record s {
        count = s.count - 1;
        pos = if ltb p s.pos then s.pos - 1 else s.pos;
        entries = move_down s.entries p (s.capacity - p - 1);
      };
    }
    else record { out = out; store = s }

-- The loop of `store_find`, over the entries from number `i` on, with `n` rounds left.
unfoldable pub store_find_loop : List Entry → ℕ → ℕ → ℕ → ℕ → Option ℕ
store_find_loop es zero i kind packet_id = none
store_find_loop [] (suc n) i kind packet_id = none
store_find_loop (e ∷ es) (suc n) i kind packet_id =
    if e.kind == kind && e.value.packet_id == packet_id
    then some i
    else store_find_loop es n (i + 1) kind packet_id

-- `store_find`: the place, or `none` for the returned 0.
unfoldable pub store_find : Store → ℕ → ℕ → Option ℕ
unfolding store_find_loop
store_find s kind packet_id = store_find_loop s.entries s.pos 0 kind packet_id

-- `lmqtt_store_get_id`: the counter is an unsigned short.
unfoldable pub store_get_id : Store → ℕ × Store
store_get_id s = (s.next_packet_id, record s { next_packet_id = (s.next_packet_id + 1) % 2 ^ 16 })

-- `lmqtt_store_count`
unfoldable pub store_count : Store → ℕ
store_count s = s.count

-- `lmqtt_store_peek`
unfoldable pub store_peek : Store → Got
unfolding store_get_at
store_peek s = store_get_at s s.pos

-- `lmqtt_store_has_current`
unfoldable pub store_has_current : Store → Bool
unfolding store_peek
store_has_current s = (store_peek s).found

-- `lmqtt_store_is_queueable`
unfoldable pub store_is_queueable : Store → Bool
store_is_queueable s = ltb s.count s.capacity

-- What `lmqtt_store_append` copies: the value, or zeros for a null pointer.
abbrev pub value_or_zero : Option StoreValue → StoreValue
value_or_zero none = zero_value
value_or_zero (some v) = v

-- `lmqtt_store_append`
unfoldable pub store_append : Store → ℕ → Option StoreValue → Bool × Store
unfolding store_is_queueable
store_append s kind value =
    if store_is_queueable s
    then (
      true,
      record s {
        count = s.count + 1;
        entries = set s.entries s.count (record { kind = kind; value = value_or_zero value });
      },
    )
    else (false, s)

-- `lmqtt_store_delete_at`
unfoldable pub store_delete_at : Store → ℕ → Bool × Store
unfolding store_pop_at
store_delete_at s p = let r = store_pop_at s p in (r.out.found, r.store)

-- `lmqtt_store_mark_current`
unfoldable pub store_mark_current : Store → Bool × Store
store_mark_current s =
    if ltb s.pos s.count then (true, record s { pos = s.pos + 1 }) else (false, s)

-- `lmqtt_store_drop_current`
unfoldable pub store_drop_current : Store → Bool × Store
unfolding store_pop_at
store_drop_current s = let r = store_pop_at s s.pos in (r.out.found, r.store)

-- `lmqtt_store_pop_marked_by`: the returned int, the value and the store.
unfoldable pub store_pop_marked_by : Store → ℕ → ℕ → Bool × StoreValue × Store
unfolding store_find store_pop_at
store_pop_marked_by s kind packet_id = elim (store_find s kind packet_id) [
  | some p ↦ let r = store_pop_at s p in (r.out.found, r.out.value, r.store)
  | none ↦ (false, zero_value, s)
]

-- `lmqtt_store_shift`
unfoldable pub store_shift : Store → Popped
unfolding store_pop_at
store_shift s = store_pop_at s 0

-- `lmqtt_store_unmark_all`
unfoldable pub store_unmark_all : Store → Store
store_unmark_all s = record s { pos = 0 }

pub record StoreTimeout : Type 0 where
  pub armed : Bool
  pub count : ℕ
  pub secs : ℤ
  pub nsecs : ℤ

abbrev pub is_zero : ℤ → Bool
is_zero (pos n) = n == 0
is_zero _ = false

-- `lmqtt_store_get_timeout`
unfoldable pub store_get_timeout : Store → Time → StoreTimeout
store_get_timeout s now =
    let when = if ltb 0 s.count then s.timeout else s.keep_alive in
    let t = time_get_timeout_to s.last_touch now when in
    if when == 0 || is_zero s.last_touch.secs && is_zero s.last_touch.nsecs
    then record { armed = false; count = 0; secs = pos 0; nsecs = pos 0 }
    else record { armed = t.armed; count = s.count; secs = t.secs; nsecs = t.nsecs }

-- `lmqtt_store_touch`
unfoldable pub store_touch : Store → Time → Store
unfolding time_touch
store_touch s now = record s { last_touch = time_touch s.last_touch now }
