-- ===== src/Client/Tests.antt =====
-- Runs of the client.
use lightmqtt.Prelude.{
  ℕ, ◌*◌, ◌<◌, ◌≡◌, refl, arith, Bool, true, false, Option, none, some, List, [], ◌∷◌, ◌++◌, length,
  take, drop, min,
}
use lightmqtt.Prelude.Int.{pos, ◌+ℤ◌, ◌-ℤ◌}
use lightmqtt.Core.{io_success, io_would_block, Kind, timeout}
use lightmqtt.IdSet.Laws
use lightmqtt.Strings.{LmqttString, string_encode}
use lightmqtt.Time.{Time, time_get_timeout_to}
use lightmqtt.Store.{Store, zero_value, on_connack, store_mark_current, store_pop_marked_by}
use lightmqtt.Store.Defs.{zero_entry}
use lightmqtt.Store.Valid
use lightmqtt.Store.Valid.{queue}
use lightmqtt.Header.{encode_remaining_length, fixed_header_decode}
use lightmqtt.Encode.{encode_buffer_encode}
use lightmqtt.Packet.{string_calc_field_length}
use lightmqtt.Connect.{
  Connect, connect_validate, connect_encode_fixed_header, connect_encode_variable_header,
  connect_encode_payload_client_id, connect_encode_payload_will_topic,
  connect_encode_payload_will_message, connect_encode_payload_user_name,
  connect_encode_payload_password,
}
use lightmqtt.Tx.Parts.{connect_object}
use lightmqtt.Tx.Loop.{tx_buffer_finish}
use lightmqtt.Rx.Decoders.{rx_buffer_decoders}
use lightmqtt.Client.State.{
  ClientCallbacks, Session, Client, session_of, set_session_of, main, connect, reach, status_error,
  status_ready,
}
use lightmqtt.Client.Requests.{cleanup_loop}
use lightmqtt.Client.Commands.{
  client_do_connect, client_do_subscribe, client_do_unsubscribe, client_do_publish,
  client_do_pingreq, client_do_disconnect, client_connect, client_subscribe, client_unsubscribe,
  client_publish, client_pingreq, client_disconnect, client_set_state_initial,
  client_set_state_connecting, requested, request,
}
use lightmqtt.Client.Setup.{ClientBuffers, blank_client, client_initialize, client_get_timeout}
use lightmqtt.Client.Transfer.{Ran, ran, ◌>=>◌, of_option}
use lightmqtt.Client.Exec.{client_keep_alive}
use lightmqtt.Client.Run.{client_run_once, Once}
use lightmqtt.Client.Phases.{Phase, initial, connected, failed, IsIn, connect_only, all_but_connect}
use lightmqtt.Client.Lifecycle.{Step, connects, Leads, step_leads}
use lightmqtt.Client.Reachable.{here, longer, reachable_phase, ActsIf, commands_obeyed}
use lightmqtt.Client.KeepAlive.{ping, expired_acts}
use lightmqtt.Client.Initial.{initial_ends}
use lightmqtt.Client.Results.{Reports, run_once-Reports}
use lightmqtt.Client.Sizes.{byte_size_oversizes}
use lightmqtt.Client.Cleanup.{kept, cleanup_keeps}
use lightmqtt.Prelude.{if◌then◌else◌}
use lightmqtt.Store.{store_append}

-- A peer that has sent `incoming` and takes all it is given.
record Peer : Type 0 where
  incoming : List ℕ
  outgoing : List ℕ

abbrev callbacks : ClientCallbacks Peer
callbacks = record {
  read = λ room p. elim p.incoming [
    | [] ↦ record { result = io_would_block; bytes = []; count = 0; os_error = 0; world = p }
    | b ∷ bs ↦ record {
      result = io_success;
      bytes = take room p.incoming;
      count = min room (length p.incoming);
      os_error = 0;
      world = record p { incoming = drop room p.incoming };
    }
  ];
  write = λ bytes p. record {
    result = io_success;
    bytes = [];
    count = length bytes;
    os_error = 0;
    world = record p { outgoing = p.outgoing ++ bytes };
  };
  get_time = λ p. (record { secs = pos 100; nsecs = pos 0 }, p);
}

abbrev zeros : List ℕ
zeros = 0 ∷ 0 ∷ 0 ∷ 0 ∷ 0 ∷ 0 ∷ 0 ∷ 0 ∷ 0 ∷ 0 ∷ 0 ∷ 0 ∷ 0 ∷ 0 ∷ 0 ∷ 0 ∷ []

abbrev buffers : ClientBuffers
buffers = record {
  store_size = 128;
  store = zero_entry ∷ zero_entry ∷ zero_entry ∷ zero_entry ∷ [];
  rx_buffer_size = 16;
  rx_buffer = zeros;
  tx_buffer_size = 16;
  tx_buffer = zeros;
  id_set_size = 8;
  id_set = 0 ∷ 0 ∷ 0 ∷ 0 ∷ [];
}

abbrev text : {W : Type 0} → List ℕ → LmqttString W
text bs = record {
  addr = 5;
  len = pos (length bs);
  buf = some bs;
  read = none;
  write = none;
  pos = 0;
}

abbrev nothing_there : {W : Type 0} → LmqttString W
nothing_there = record { addr = 6; len = pos 0; buf = none; read = none; write = none; pos = 0 }

abbrev connection : Connect (Session Peer)
connection = record {
  keep_alive = 30;
  clean_session = true;
  will_qos = 0;
  will_retain = false;
  client_id = text (b'a' ∷ []);
  will_topic = nothing_there;
  will_message = nothing_there;
  user_name = nothing_there;
  password = nothing_there;
  session_present = 0;
}

abbrev peer : Peer
peer = record { incoming = 0x20 ∷ 2 ∷ 0 ∷ 0 ∷ []; outgoing = [] }

-- What a run shows: the result, the bytes sent, the flag `closed` and the keep-alive interval.
abbrev Shown : Type 0
Shown = ℕ × List ℕ × Bool × ℕ

abbrev shown : Ran (Once Peer) → Option Shown
shown (ran o) =
    let s = session_of o.client in
    some (o.result, s.outside.outgoing, s.closed, s.main_store.keep_alive)
shown _ = none

abbrev connecting_run : Option Shown
connecting_run = shown (
    of_option (client_initialize 32 callbacks buffers (connect_object connection ∷ []) peer)
    >=> λ c. of_option (client_connect c 0) >=> λ (ok, c'). client_run_once 40 12 3 c')

abbrev blank : Client Peer
blank = blank_client 32 callbacks buffers (connect_object connection ∷ []) peer

abbrev hundred : Time
hundred = record { secs = pos 100; nsecs = pos 0 }

-- The client that is initialized.
abbrev start : Client Peer
start =
    record (set_session_of blank (record (session_of blank) {
      closed = true;
      current_store = connect;
      connect_store = record (session_of blank).connect_store { last_touch = hundred };
      internal = connect_only;
    })) { tx = tx_buffer_finish blank.tx }

start_eq : client_initialize 32 callbacks buffers (connect_object connection ∷ []) peer ≡ some start
unfolding client_initialize
start_eq = refl

-- The client that has sent CONNECT.
abbrev waiting : Client Peer
waiting =
    client_set_state_connecting
      (requested start connect Kind.connect (some (request 0 (some 0) on_connack))).1

connects-Step : Step start waiting
unfolding client_connect connect_validate
connects-Step = connects start waiting 0 true refl

step_leads_example : Leads initial waiting
step_leads_example = step_leads initial start waiting (refl, refl, refl, refl) connects-Step

reachable_phase_example : (phase : Phase) × IsIn phase (session_of waiting)
reachable_phase_example =
    reachable_phase 32 callbacks buffers (connect_object connection ∷ []) peer start waiting
      start_eq (longer start start waiting (here start) connects-Step)

commands_obeyed_example :
    ActsIf false waiting (client_connect waiting 0) (client_do_connect waiting 0)
    × ActsIf false waiting (client_subscribe waiting 0) (client_do_subscribe waiting 0)
    × ActsIf false waiting (client_unsubscribe waiting 0) (client_do_unsubscribe waiting 0)
    × ActsIf false waiting (client_publish waiting 0) (client_do_publish waiting 0)
    × ActsIf false waiting (client_pingreq waiting) (some (client_do_pingreq waiting))
    × ActsIf false waiting (client_disconnect waiting) (some (client_do_disconnect waiting))
unfolding client_set_state_connecting
commands_obeyed_example =
    commands_obeyed 32 callbacks buffers (connect_object connection ∷ []) peer start waiting 0
      start_eq (longer start start waiting (here start) connects-Step)

-- A connected client that was silent for 99 seconds.
abbrev silent : Client Peer
silent = set_session_of start (record (session_of start) {
  closed = false;
  current_store = main;
  internal = all_but_connect;
  main_store = record (session_of start).main_store {
    keep_alive = 30;
    last_touch = record { secs = pos 1; nsecs = pos 0 };
  };
})

main-IsValid : Valid.IsValid (session_of silent).main_store
main-IsValid = record {
  sent_in = omega arith;
  fits = omega arith;
  storage = omega arith;
  id_in = omega arith;
}

expired_acts_example :
    (c' : Client Peer) × ((0 < (session_of silent).main_store.count
        → (client_keep_alive silent ≡ some (status_error, c'))
          × IsIn failed (session_of c')
          × ((session_of c').error ≡ some timeout))
      × ((session_of silent).main_store.count ≡ 0
          → (client_keep_alive silent ≡ some (status_ready, c'))
            × IsIn connected (session_of c')
            × (queue (session_of c').main_store
                ≡ record (queue (session_of silent).main_store) { waiting = ping ∷ [] })))
unfolding client_get_timeout ◌+ℤ◌ ◌-ℤ◌ time_get_timeout_to
expired_acts_example = expired_acts silent (refl, refl, refl, refl) main-IsValid (omega arith) refl

-- The same as `waiting`, with an application that notes the failure of its CONNECT.
abbrev listening : Client Peer
listening = set_session_of waiting (record (session_of waiting) {
  on_connect = some (λ v ok p. (true, record p { outgoing = (if ok then 1 else 0) ∷ p.outgoing }));
})

listening_main-IsValid : Valid.IsValid (session_of listening).main_store
unfolding client_set_state_connecting store_append
listening_main-IsValid = record {
  sent_in = omega arith;
  fits = omega arith;
  storage = omega arith;
  id_in = omega arith;
}

listening_connect-IsValid : Valid.IsValid (session_of listening).connect_store
unfolding client_set_state_connecting store_append
listening_connect-IsValid = record {
  sent_in = omega arith;
  fits = omega arith;
  storage = omega arith;
  id_in = omega arith;
}

initial_ends_example :
    (c' : Client Peer) × (client_set_state_initial listening ≡ some c')
    × ((session_of c').connect_store.count ≡ 0)
    × ((session_of listening).clean_session ≡ true
        → ((session_of c').main_store.count ≡ 0)
          × ((reach c').id_set.count ≡ 0)
          × ((session_of c').outside ≡ record peer { outgoing = 0 ∷ peer.outgoing }))
    × ((session_of listening).clean_session ≡ false
        → ((session_of c').main_store
            ≡ cleanup_loop
                (session_of listening).main_store.count
                (session_of listening).main_store
                0)
          × ((reach c').id_set ≡ (reach listening).id_set)
          × ((session_of c').outside ≡ record peer { outgoing = 0 ∷ peer.outgoing }))
unfolding client_set_state_connecting store_append
initial_ends_example = initial_ends listening listening_main-IsValid listening_connect-IsValid

byte_size_oversizes_example :
    (c : Client Peer) × (client_initialize 32 callbacks buffers
        (connect_object connection ∷ [])
        peer
      ≡ some c)
    × ((reach c).id_set.capacity ≡ 2 * length (reach c).id_set.items)
    × ¬ Laws.IsValid (reach c).id_set
byte_size_oversizes_example =
    byte_size_oversizes 32 callbacks buffers (connect_object connection ∷ []) peer (omega arith)
      refl

-- A request that was sent and a PINGREQ that was not.
abbrev two_left : Store
two_left = record (session_of silent).main_store {
  count = 2;
  pos = 1;
  entries = record { kind = 202; value = zero_value } ∷ ping ∷ zero_entry ∷ zero_entry ∷ [];
}

two_left-IsValid : Valid.IsValid two_left
two_left-IsValid = record {
  sent_in = omega arith;
  fits = omega arith;
  storage = omega arith;
  id_in = omega arith;
}

cleanup_keeps_example : queue (cleanup_loop 2 two_left 0) ≡ record (queue two_left) {
  sent = kept (queue two_left).sent;
  waiting = kept (queue two_left).waiting;
}
cleanup_keeps_example = cleanup_keeps two_left two_left-IsValid

-- CONNECT is written, CONNACK is read, and the client is connected: the result tells that reading
-- would block and that there is room in the store.
connecting_run_eq :
    connecting_run
    ≡ some (
      0x2100,
      0x10 ∷ 13 ∷ 0 ∷ 4 ∷ b'M' ∷ b'Q' ∷ b'T' ∷ b'T' ∷ 4 ∷ 2 ∷ 0 ∷ 30 ∷ 0 ∷ 1 ∷ b'a' ∷ [],
      false,
      30,
    )
unfolding client_initialize client_connect client_run_once connect_validate
    connect_encode_fixed_header encode_buffer_encode encode_remaining_length ◌+ℤ◌
    string_calc_field_length connect_encode_variable_header connect_encode_payload_client_id
    string_encode connect_encode_payload_will_topic connect_encode_payload_will_message
    connect_encode_payload_user_name connect_encode_payload_password store_mark_current
    fixed_header_decode store_pop_marked_by time_get_timeout_to rx_buffer_decoders
connecting_run_eq = refl

-- What a run returns, or the client `waiting` as it is.
abbrev outcome : Ran (Once Peer) → Once Peer
outcome (ran o) = o
outcome _ = record { result = 0; str_rd = none; str_wr = none; client = waiting }

run_once-Reports_example : Reports (outcome (client_run_once 40 12 3 waiting))
unfolding client_initialize client_connect client_run_once connect_validate
    connect_encode_fixed_header encode_buffer_encode encode_remaining_length ◌+ℤ◌
    string_calc_field_length connect_encode_variable_header connect_encode_payload_client_id
    string_encode connect_encode_payload_will_topic connect_encode_payload_will_message
    connect_encode_payload_user_name connect_encode_payload_password store_mark_current
    fixed_header_decode store_pop_marked_by time_get_timeout_to rx_buffer_decoders
run_once-Reports_example =
    run_once-Reports 40 12 3 waiting (outcome (client_run_once 40 12 3 waiting)) refl
