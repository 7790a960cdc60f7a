-- ===== src/Client/State.antt =====
-- The state of `lmqtt_client_t` and the values that its functions return.
use lightmqtt.Prelude.{ℕ, Bool, Option, none, some, List}
use lightmqtt.Core.{
  Error, encode_string, decode_fixed_header_invalid_type, decode_fixed_header_invalid_flags,
  decode_fixed_header_invalid_remaining_length, decode_fixed_header_server_specific,
  decode_nonzero_remaining_length, decode_no_corresponding_request, decode_response_too_short,
  decode_connack_invalid_acknowledge_flags, decode_connack_invalid_return_code,
  decode_connack_invalid_length, decode_suback_count_mismatch, decode_suback_invalid_return_code,
  decode_publish_invalid_length, decode_publish_id_set_full, decode_publish_topic_allocate_failed,
  decode_publish_topic_write_failed, decode_publish_payload_allocate_failed,
  decode_publish_payload_write_failed, decode_publish_message_callback_failed,
  decode_pubrel_id_set_full, connection_read, connection_write, timeout, closed,
  connack_unacceptable_protocol_version, connack_identifier_rejected, connack_server_unavailable,
  connack_bad_user_name_or_password, connack_not_authorized, callback_connack, callback_suback,
  callback_unsuback, callback_publish,
}
use lightmqtt.Strings.{Reader, Writer}
use lightmqtt.Time.{Time}
use lightmqtt.Store.{Store}
use lightmqtt.Tx.Loop.{Tx}
use lightmqtt.Rx.State.{Shared, Rx, MessageCallbacks}

-- `lmqtt_io_status_t`
pub data IoStatus : Type 0 where
  status_ready status_block_conn status_block_data status_error : IoStatus

-- A callback of the application: it is given the address of the request and whether the request
-- succeeded, and acts on the world outside.
abbrev pub OnEvent : Type 0 → Type 0
OnEvent U = Option ℕ → Bool → U → Bool × U

-- `lmqtt_client_callbacks_t`; `data` is part of the functions.
pub record ClientCallbacks (U : Type 0) : Type 0 where
  pub read : Reader U
  pub write : Writer U
  pub get_time : U → Time × U

-- What a pointer to a store points to.
pub data StoreName : Type 0 where
  main connect : StoreName

-- A function pointer of `internal`: the function or the one that refuses.
pub data Pointer : Type 0 where
  active refusing : Pointer

-- `internal`
pub record Internal : Type 0 where
  pub connect : Pointer
  pub subscribe : Pointer
  pub unsubscribe : Pointer
  pub publish : Pointer
  pub pingreq : Pointer
  pub disconnect : Pointer

-- `lmqtt_client_t`, less its two buffers. `rx_state.store` and `tx_state.store` always are
-- `current_store`.
pub record Session (U : Type 0) : Type 0 where
  pub on_connect : Option (OnEvent U)
  pub on_subscribe : Option (OnEvent U)
  pub on_unsubscribe : Option (OnEvent U)
  pub on_publish : Option (OnEvent U)
  pub closed : Bool
  pub clean_session : Bool
  pub main_store : Store
  pub connect_store : Store
  pub current_store : StoreName
  pub error : Option Error
  pub os_error : ℕ
  pub internal : Internal
  pub outside : U

-- `lmqtt_client_t`. The session is the world of the rx buffer's heap; the stores are in it, and what
-- the two buffers hold as their store is a copy that is made for a call.
pub record Client (U : Type 0) : Type 0 where
  pub rx : Rx (Session U)
  pub tx : Tx
  pub read_buf : List ℕ
  pub read_buf_pos : ℕ
  pub read_buf_capacity : ℕ
  pub write_buf : List ℕ
  pub write_buf_pos : ℕ
  pub write_buf_capacity : ℕ
  pub callbacks : ClientCallbacks U
  pub message_callbacks : MessageCallbacks (Session U)

-- What the callbacks of requests can reach.
abbrev pub Reach : Type 0 → Type 0
Reach U = Shared (Session U)

module _ {U : Type 0} where
  abbrev pub session : Reach U → Session U
  session r = r.heap.world

  abbrev pub set_session : Reach U → Session U → Reach U
  set_session r s = record r { heap = record r.heap { world = s } }

  abbrev pub store_of : Session U → StoreName → Store
  store_of s main = s.main_store
  store_of s connect = s.connect_store

  abbrev pub set_store_of : Session U → StoreName → Store → Session U
  set_store_of s main store = record s { main_store = store }
  set_store_of s connect store = record s { connect_store = store }

  abbrev pub current : Session U → Store
  current s = store_of s s.current_store

  -- The store of a buffer, copied in before its functions run and out behind them.
  abbrev pub copy_in : Reach U → Reach U
  copy_in r = record r { store = current (session r) }

  abbrev pub copy_out : Reach U → Reach U
  copy_out r = set_session r (set_store_of (session r) (session r).current_store r.store)

  abbrev pub reach : Client U → Reach U
  reach c = c.rx.shared

  abbrev pub set_reach : Client U → Reach U → Client U
  set_reach c r = record c { rx = record c.rx { shared = r } }

  abbrev pub session_of : Client U → Session U
  session_of c = session c.rx.shared

  abbrev pub set_session_of : Client U → Session U → Client U
  set_session_of c s = set_reach c (set_session (reach c) s)

-- The number of an `lmqtt_error_t`.
abbrev pub error_code : Option Error → ℕ
error_code none = 0
error_code (some encode_string) = 1
error_code (some decode_fixed_header_invalid_type) = 2
error_code (some decode_fixed_header_invalid_flags) = 3
error_code (some decode_fixed_header_invalid_remaining_length) = 4
error_code (some decode_fixed_header_server_specific) = 5
error_code (some decode_nonzero_remaining_length) = 6
error_code (some decode_no_corresponding_request) = 7
error_code (some decode_response_too_short) = 8
error_code (some decode_connack_invalid_acknowledge_flags) = 9
error_code (some decode_connack_invalid_return_code) = 10
error_code (some decode_connack_invalid_length) = 11
error_code (some decode_suback_count_mismatch) = 12
error_code (some decode_suback_invalid_return_code) = 13
error_code (some decode_publish_invalid_length) = 14
error_code (some decode_publish_id_set_full) = 15
error_code (some decode_publish_topic_allocate_failed) = 16
error_code (some decode_publish_topic_write_failed) = 17
error_code (some decode_publish_payload_allocate_failed) = 18
error_code (some decode_publish_payload_write_failed) = 19
error_code (some decode_publish_message_callback_failed) = 20
error_code (some decode_pubrel_id_set_full) = 21
error_code (some connection_read) = 22
error_code (some connection_write) = 23
error_code (some timeout) = 24
error_code (some closed) = 25
error_code (some connack_unacceptable_protocol_version) = 26
error_code (some connack_identifier_rejected) = 27
error_code (some connack_server_unavailable) = 28
error_code (some connack_bad_user_name_or_password) = 29
error_code (some connack_not_authorized) = 30
error_code (some callback_connack) = 31
error_code (some callback_suback) = 32
error_code (some callback_unsuback) = 33
error_code (some callback_publish) = 34
