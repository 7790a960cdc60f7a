-- ===== src/Client/Commands.antt =====
-- The states of the client and the commands of the application.
use lightmqtt.Prelude.{ℕ, Bool, true, false, not, Option, none, some, if◌then◌else◌, ◌==◌}
use lightmqtt.Core.{Error, closed, Kind, kind_code}
use lightmqtt.Core
use lightmqtt.Encode.{◌>>=◌, assert}
use lightmqtt.Strings.{is_some}
use lightmqtt.Store.{
  StoreValue, Callback, on_connack, on_suback, on_unsuback, on_publish, on_pingresp, store_get_id,
  store_append, store_touch,
}
use lightmqtt.Connect.{connect_validate}
use lightmqtt.Subscribe.{subscribe_validate}
use lightmqtt.Publish.{publish_validate}
use lightmqtt.Tx.Parts.{as_connect, as_subscribe, as_publish, load}
use lightmqtt.Tx.Loop.{tx_buffer_reset, tx_buffer_finish}
use lightmqtt.Rx.State.{rx_buffer_reset}
use lightmqtt.Client.State.{
  StoreName, main, connect, Pointer, active, refusing, Internal, Client, session, set_session,
  store_of, set_store_of, reach, set_reach, session_of, set_session_of,
}
use lightmqtt.Client.Requests.{client_cleanup_stores, client_set_current_store, client_call}

-- One CONNACK inside of another, at most.
abbrev pub call_depth : ℕ
call_depth = 2

-- What a command returns, and the client.
abbrev pub Answer : Type 0 → Type 0
Answer U = Option (Bool × Client U)

abbrev pub all_refusing : Internal
all_refusing = record {
  connect = refusing;
  subscribe = refusing;
  unsubscribe = refusing;
  publish = refusing;
  pingreq = refusing;
  disconnect = refusing;
}

-- The address of the client.
abbrev pub client_addr : ℕ
client_addr = 0

-- A request with the address of its object. `callback_data` is the client itself.
abbrev pub request : ℕ → Option ℕ → Callback → StoreValue
request packet_id value callback = record {
  packet_id = packet_id;
  value = value;
  callback = some callback;
  callback_data = some client_addr;
}

module _ {U : Type 0} where
  -- `lmqtt_store_touch`, with the clock of the client
  abbrev pub touched : Client U → StoreName → Client U
  touched c name =
      let s = session_of c in
      let (now, outside) = c.callbacks.get_time s.outside in
      set_session_of c
        (set_store_of (record s { outside = outside }) name (store_touch (store_of s name) now))

  -- `client_set_state_initial`
  unfoldable pub client_set_state_initial : Client U → Option (Client U)
  unfolding store_touch client_set_current_store client_cleanup_stores tx_buffer_finish client_call
  client_set_state_initial c =
      let c' =
        touched
          (set_session_of c (record (session_of c) { error = none; os_error = 0; closed = true }))
          connect in
      client_cleanup_stores (client_call call_depth) (not (session_of c').clean_session)
        (set_session (reach c') (client_set_current_store connect (session_of c')))
      >>= λ r.
          some
            (record (set_reach c' (
              set_session r
                (record (session r) { internal = record all_refusing { connect = active } }))) {
                  tx = tx_buffer_finish c.tx;
                })

  -- `client_set_state_connecting`
  unfoldable pub client_set_state_connecting : Client U → Client U
  unfolding rx_buffer_reset tx_buffer_reset
  client_set_state_connecting c =
      let s = record (session_of c) {
        error = none;
        os_error = 0;
        closed = false;
        internal = record (session_of c).internal { connect = refusing };
      } in
      record (set_session_of c s) {
        rx = rx_buffer_reset (set_session_of c s).rx;
        tx = tx_buffer_reset c.tx;
        read_buf_pos = 0;
        write_buf_pos = 0;
      }

  -- `client_set_state_failed`
  unfoldable pub client_set_state_failed : Client U → Option (Client U)
  client_set_state_failed c =
      assert (is_some (session_of c).error)
        (some (set_session_of c (record (session_of c) { closed = true; internal = all_refusing })))

  -- `lmqtt_store_append` of a request
  abbrev pub requested : Client U → StoreName → Kind → Option StoreValue → Bool × Client U
  requested c name kind v =
      let s = session_of c in
      let (ok, store) = store_append (store_of s name) (kind_code kind) v in
      (ok, set_session_of c (set_store_of s name store))

  -- `lmqtt_store_get_id(&client->main_store)`
  abbrev pub next_id : Client U → ℕ × Client U
  next_id c =
      let (id, store) = store_get_id (session_of c).main_store in
      (id, set_session_of c (record (session_of c) { main_store = store }))

  -- `client_do_connect`
  unfoldable pub client_do_connect : Client U → ℕ → Answer U
  unfolding store_append client_set_state_connecting
  client_do_connect c at = load as_connect (reach c).heap (some at) >>= λ (i, p).
      let (ok, c') =
        requested c connect Core.Kind.connect (some (request 0 (some at) on_connack)) in
      some (
        if not (connect_validate p)
        then (false, c)
        else if ok
        then (true, client_set_state_connecting c')
        else (false, c'))

  -- `client_subscribe_with_kind`
  unfoldable pub client_subscribe_with_kind : Client U → ℕ → Kind → Callback → Answer U
  unfolding store_append store_get_id
  client_subscribe_with_kind c at kind callback =
      load as_subscribe (reach c).heap (some at) >>= λ (i, p). subscribe_validate p >>= λ valid.
      let (id, c') = next_id c in
      some (
        if not valid
        then (false, c)
        else requested c' main kind (some (request id (some at) callback)))

  -- `client_do_subscribe`
  unfoldable pub client_do_subscribe : Client U → ℕ → Answer U
  unfolding client_subscribe_with_kind
  client_do_subscribe c at = client_subscribe_with_kind c at Core.Kind.subscribe on_suback

  -- `client_do_unsubscribe`
  unfoldable pub client_do_unsubscribe : Client U → ℕ → Answer U
  unfolding client_subscribe_with_kind
  client_do_unsubscribe c at = client_subscribe_with_kind c at Core.Kind.unsubscribe on_unsuback

  -- `client_do_publish`
  unfoldable pub client_do_publish : Client U → ℕ → Answer U
  unfolding store_append store_get_id
  client_do_publish c at = load as_publish (reach c).heap (some at) >>= λ (i, p).
      let (id, c') = next_id c in
      some (
        if not (publish_validate p)
        then (false, c)
        else if p.qos == 0
        then requested c main Core.Kind.publish_0 (some (request 0 (some at) on_publish))
        else requested c' main (if p.qos == 1 then Core.Kind.publish_1 else Core.Kind.publish_2)
            (some (request id (some at) on_publish)))

  -- `client_do_pingreq`
  unfoldable pub client_do_pingreq : Client U → Bool × Client U
  unfolding store_append
  client_do_pingreq c = requested c main Core.Kind.pingreq (some (request 0 none on_pingresp))

  -- `client_do_disconnect`
  unfoldable pub client_do_disconnect : Client U → Bool × Client U
  unfolding store_append
  client_do_disconnect c = requested c main Core.Kind.disconnect none

  -- `client_do_connect_fail` and its kin
  abbrev pub client_do_fail : Client U → Answer U
  client_do_fail c = some (false, c)

  -- A call through a function pointer of `internal`.
  abbrev pub through : Pointer → Client U → Answer U → Answer U
  through active c answer = answer
  through refusing c answer = client_do_fail c

  -- `lmqtt_client_connect`
  unfoldable pub client_connect : Client U → ℕ → Answer U
  unfolding client_do_connect
  client_connect c at = through (session_of c).internal.connect c (client_do_connect c at)

  -- `lmqtt_client_subscribe`
  unfoldable pub client_subscribe : Client U → ℕ → Answer U
  unfolding client_do_subscribe
  client_subscribe c at = through (session_of c).internal.subscribe c (client_do_subscribe c at)

  -- `lmqtt_client_unsubscribe`
  unfoldable pub client_unsubscribe : Client U → ℕ → Answer U
  unfolding client_do_unsubscribe
  client_unsubscribe c at =
      through (session_of c).internal.unsubscribe c (client_do_unsubscribe c at)

  -- `lmqtt_client_publish`
  unfoldable pub client_publish : Client U → ℕ → Answer U
  unfolding client_do_publish
  client_publish c at = through (session_of c).internal.publish c (client_do_publish c at)

  -- `client->internal.pingreq(client)`
  unfoldable pub client_pingreq : Client U → Answer U
  unfolding client_do_pingreq
  client_pingreq c = through (session_of c).internal.pingreq c (some (client_do_pingreq c))

  -- `lmqtt_client_disconnect`
  unfoldable pub client_disconnect : Client U → Answer U
  unfolding client_do_disconnect
  client_disconnect c = through (session_of c).internal.disconnect c (some (client_do_disconnect c))
