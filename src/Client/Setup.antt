-- ===== src/Client/Setup.antt =====
-- The client from its start to its end, and its settings.
use lightmqtt.Prelude.{
  ℕ, ◌/◌, Bool, true, false, not, ◌&&◌, Option, none, some, List, [], ◌∷◌, if◌then◌else◌,
}
use lightmqtt.Prelude.Int.{pos}
use lightmqtt.Core.{Error, closed}
use lightmqtt.Encode.{◌>>=◌, zero_buffer}
use lightmqtt.Time.{Time}
use lightmqtt.Store.{Store, Entry, StoreTimeout, store_get_timeout}
use lightmqtt.Store.Defs.{zero_entry}
use lightmqtt.Tx.Parts.{Object}
use lightmqtt.Rx.State.{MessageCallbacks, StoredCalls}
use lightmqtt.Rx.Idle.{idle}
use lightmqtt.Rx.Finish.{rx_buffer_finish}
use lightmqtt.Client.State.{
  OnEvent, ClientCallbacks, main, Session, Client, copy_in, copy_out, current, reach, session_of,
  set_session_of,
}
use lightmqtt.Client.Requests.{client_cleanup_stores, client_call}
use lightmqtt.Client.Commands.{
  all_refusing, call_depth, client_set_state_initial, client_set_state_failed,
}

-- `lmqtt_client_buffers_t`, with the memory that the pointers point to.
pub record ClientBuffers : Type 0 where
  pub store_size : ℕ
  pub store : List Entry
  pub rx_buffer_size : ℕ
  pub rx_buffer : List ℕ
  pub tx_buffer_size : ℕ
  pub tx_buffer : List ℕ
  pub id_set_size : ℕ
  pub id_set : List ℕ

abbrev pub zero_time : Time
zero_time = record { secs = pos 0; nsecs = pos 0 }

-- A store of zero bytes with that room.
abbrev pub empty_store : List Entry → ℕ → Store
empty_store entries capacity = record {
  keep_alive = 0;
  timeout = 0;
  next_packet_id = 0;
  last_touch = zero_time;
  count = 0;
  pos = 0;
  capacity = capacity;
  entries = entries;
}

-- The callbacks of requests, as the rx buffer calls them. A CONNECT stands in the heap when its
-- callback runs, since the decoder has written `session_present` to it, so no call here faults.
abbrev pub stored_calls : {U : Type 0} → StoredCalls (Session U)
stored_calls f itself value r = elim (client_call call_depth f value (copy_out r)) [
  | none ↦ (false, r)
  | some (ok, r') ↦ (ok, copy_in r')
]

abbrev pub is_closed : Option Error → Bool
is_closed (some closed) = true
is_closed _ = false

module _ {U : Type 0} where
  abbrev pub no_messages : MessageCallbacks (Session U)
  no_messages = record {
    on_publish = none;
    on_publish_allocate_topic = none;
    on_publish_allocate_payload = none;
    on_publish_deallocate = none;
  }

  abbrev pub blank_session : ℕ → ClientBuffers → U → Session U
  blank_session entry_size buffers outside = record {
    on_connect = none;
    on_subscribe = none;
    on_unsubscribe = none;
    on_publish = none;
    closed = false;
    clean_session = false;
    main_store = empty_store buffers.store (buffers.store_size / entry_size);
    connect_store = empty_store (zero_entry ∷ []) 1;
    current_store = main;
    error = none;
    os_error = 0;
    internal = all_refusing;
    outside = outside;
  }

  -- The client before `client_set_state_initial` sets the function pointers and `current_store`,
  -- which are null until then.
  abbrev pub blank_client :
      ℕ → ClientCallbacks U → ClientBuffers → List (Object (Session U)) → U → Client U
  blank_client entry_size callbacks buffers objects outside = record {
    rx = idle (record {
      store = empty_store [] 0;
      id_set = record { items = buffers.id_set; capacity = buffers.id_set_size; count = 0 };
      heap = record { objects = objects; world = blank_session entry_size buffers outside };
    });
    tx = record {
      store = empty_store [] 0;
      closed = false;
      pos = 0;
      offset = 0;
      buffer = zero_buffer;
      error = none;
      os_error = 0;
    };
    read_buf = buffers.rx_buffer;
    read_buf_pos = 0;
    read_buf_capacity = buffers.rx_buffer_size;
    write_buf = buffers.tx_buffer;
    write_buf_pos = 0;
    write_buf_capacity = buffers.tx_buffer_size;
    callbacks = callbacks;
    message_callbacks = no_messages;
  }

  -- `lmqtt_client_initialize`; `entry_size` is `LMQTT_STORE_ENTRY_SIZE`.
  unfoldable pub client_initialize :
      ℕ → ClientCallbacks U → ClientBuffers → List (Object (Session U)) → U → Option (Client U)
  unfolding client_set_state_initial
  client_initialize entry_size callbacks buffers objects outside =
      client_set_state_initial (blank_client entry_size callbacks buffers objects outside)

  -- `lmqtt_client_reset`
  unfoldable pub client_reset : Client U → Option (Client U)
  unfolding client_set_state_initial
  client_reset c =
      if (session_of c).closed && not (is_closed (session_of c).error)
      then client_set_state_initial c
      else some c

  -- `lmqtt_client_finalize`
  unfoldable pub client_finalize : Client U → Option (Client U)
  unfolding client_set_state_failed rx_buffer_finish client_cleanup_stores client_call
  client_finalize c =
      client_set_state_failed
        (set_session_of c (record (session_of c) { error = some closed; os_error = 0 }))
      >>= λ c'.
          let rx = rx_buffer_finish stored_calls (record c'.rx { shared = copy_in (reach c') }) in
          client_cleanup_stores (client_call call_depth) false (copy_out rx.shared) >>= λ r.
          some (record c' { rx = record rx { shared = r } })

  -- `lmqtt_client_set_on_connect`
  unfoldable pub client_set_on_connect : Client U → Option (OnEvent U) → Client U
  client_set_on_connect c f = set_session_of c (record (session_of c) { on_connect = f })

  -- `lmqtt_client_set_on_subscribe`
  unfoldable pub client_set_on_subscribe : Client U → Option (OnEvent U) → Client U
  client_set_on_subscribe c f = set_session_of c (record (session_of c) { on_subscribe = f })

  -- `lmqtt_client_set_on_unsubscribe`
  unfoldable pub client_set_on_unsubscribe : Client U → Option (OnEvent U) → Client U
  client_set_on_unsubscribe c f = set_session_of c (record (session_of c) { on_unsubscribe = f })

  -- `lmqtt_client_set_on_publish`
  unfoldable pub client_set_on_publish : Client U → Option (OnEvent U) → Client U
  client_set_on_publish c f = set_session_of c (record (session_of c) { on_publish = f })

  -- `lmqtt_client_set_message_callbacks`
  unfoldable pub client_set_message_callbacks : Client U → MessageCallbacks (Session U) → Client U
  client_set_message_callbacks c m = record c { message_callbacks = m }

  -- `lmqtt_client_set_default_timeout`
  unfoldable pub client_set_default_timeout : Client U → ℕ → Client U
  client_set_default_timeout c secs =
      let s = session_of c in
      set_session_of c (record s {
        main_store = record s.main_store { timeout = secs };
        connect_store = record s.connect_store { timeout = secs };
      })

  -- `lmqtt_client_get_os_error`
  unfoldable pub client_get_os_error : Client U → ℕ
  client_get_os_error c = (session_of c).os_error

  -- `lmqtt_client_get_timeout`. The clock is read only where a timer runs.
  unfoldable pub client_get_timeout : Client U → StoreTimeout × Client U
  unfolding store_get_timeout
  client_get_timeout c =
      let s = session_of c in
      let (now, outside) = c.callbacks.get_time s.outside in
      let t = store_get_timeout (current s) now in
      (t, if t.armed then set_session_of c (record s { outside = outside }) else c)
