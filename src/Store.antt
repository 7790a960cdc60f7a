-- ===== src/Store.antt =====
-- src/lmqtt_store.c: the store, an array of packets that are to be sent or wait for a response.
-- `entries` is the C array; the entries before `pos` have been sent, those from `pos` to `count`
-- have not. A clock reading is the argument `now`.
pub mod Defs
pub mod Queue
pub mod Valid
pub mod Arrays
pub mod Refine
pub mod Sessions
pub mod Timer
mod Tests
pub use Defs.{Callback, on_connack, on_suback, on_unsuback, on_publish, on_pingresp}
pub use Defs.{StoreValue, zero_value, Entry, Store}
pub use Defs.{Got, Popped, StoreTimeout}
unfoldable pub use Defs.{store_get_at, store_pop_at, store_find}
unfoldable pub use Defs.{store_get_id, store_count, store_peek, store_has_current}
unfoldable pub use Defs.{store_is_queueable, store_append, store_delete_at, store_mark_current}
unfoldable pub use Defs.{store_drop_current, store_pop_marked_by, store_shift, store_unmark_all}
unfoldable pub use Defs.{store_get_timeout, store_touch}
