-- ===== src/Rx/Tests.antt =====
-- Runs of the rx buffer.
use lightmqtt.Prelude.{ℕ, suc, ◌≡◌, ◌≢◌, refl, subst, arith, true, false, none, some, List, [], ◌∷◌}
use lightmqtt.Prelude.Int.{pos}
use lightmqtt.Core.{io_error, io_success, Error, decode_fixed_header_invalid_type, callback_connack}
use lightmqtt.Header.{fresh, fixed_header_decode}
use lightmqtt.IdSet.{id_set_contains}
use lightmqtt.Strings.{LmqttString, is_some}
use lightmqtt.Store.{Store, StoreValue, Entry, on_connack, on_publish, store_pop_marked_by}
use lightmqtt.Store.Defs.{zero_entry}
use lightmqtt.Store.Valid
use lightmqtt.Connect.{Connect}
use lightmqtt.Tx.Parts.{connect_object}
use lightmqtt.Rx.State.{Shared, Rx, StoredCalls, OnPublish}
use lightmqtt.Rx.Loop.{returned, unfinished, fault, rx_buffer_decode}
use lightmqtt.Rx.Idle.{idle}
use lightmqtt.Rx.Sticky.{failed_stays_failed}
use lightmqtt.Rx.Writing.{TakesBoth, KeepsTaking}
use lightmqtt.Rx.Ends.{decode_ends}
use lightmqtt.Rx.Answers.{puback_answer, IsAnswered, answered, call_back}
use lightmqtt.Rx.Connack.Steps.{noted}
use lightmqtt.Rx.Connack.{verdict, connack_read, long_connack_faults}
use lightmqtt.Rx.State.{MessageCallbacks}
use lightmqtt.Rx.Once.Packets.{Given}
use lightmqtt.Rx.Once.{Event, message, release, run, HasRoom, delivered_once}

abbrev text : List ℕ → LmqttString ℕ
text bs = record { addr = 5; len = pos 0; buf = some bs; read = none; write = none; pos = 0 }

abbrev connection : Connect ℕ
connection = record {
  keep_alive = 30;
  clean_session = true;
  will_qos = 0;
  will_retain = false;
  client_id = text [];
  will_topic = text [];
  will_message = text [];
  user_name = text [];
  password = text [];
  session_present = 0;
}

abbrev store_with : List Entry → ℕ → Store
store_with entries count = record {
  keep_alive = 10;
  timeout = 5;
  next_packet_id = 1;
  last_touch = record { secs = pos 0; nsecs = pos 0 };
  count = count;
  pos = count;
  capacity = 8;
  entries = entries;
}

abbrev more_entries : List Entry
more_entries =
    zero_entry ∷ zero_entry ∷ zero_entry ∷ zero_entry ∷ zero_entry ∷ zero_entry ∷ zero_entry
    ∷ zero_entry ∷ []

abbrev shared_with : Store → Shared ℕ
shared_with store = record {
  store = store;
  id_set = record { items = 0 ∷ 0 ∷ []; capacity = 2; count = 0 };
  heap = record { objects = connect_object connection ∷ []; world = 0 };
}

abbrev waiting_publish : Shared ℕ
waiting_publish = shared_with (
    store_with
      (record {
        kind = 202;
        value = record {
          packet_id = 0x102;
          value = some 0;
          callback = some on_publish;
          callback_data = none;
        };
      }
        ∷ more_entries)
      1)

abbrev connect_value : StoreValue
connect_value = record {
  packet_id = 0;
  value = some 0;
  callback = some on_connack;
  callback_data = none;
}

abbrev waiting_connect : Shared ℕ
waiting_connect =
    shared_with (store_with (record { kind = 200; value = connect_value } ∷ more_entries) 1)

abbrev left_by_connect : Store
left_by_connect = (store_pop_marked_by waiting_connect.store 200 0).2

-- An application that counts the messages that it is given.
abbrev counting : MessageCallbacks ℕ
counting = record {
  on_publish =
      some (λ p s. (true, p, record s { heap = record s.heap { world = suc s.heap.world } }));
  on_publish_allocate_topic = none;
  on_publish_allocate_payload = none;
  on_publish_deallocate = none;
}

abbrev no_calls : StoredCalls ℕ
no_calls f d v s = (true, s)

abbrev failed_rx : Rx ℕ
failed_rx = record (idle waiting_publish) {
  header = record fresh { error = some decode_fixed_header_invalid_type };
  error = some decode_fixed_header_invalid_type;
}

failed_stays_failed_example :
    (is_some failed_rx.error ≡ true)
    × (rx_buffer_decode counting no_calls failed_rx (0xd0 ∷ 0 ∷ []) ≡ returned io_error 0 failed_rx)
unfolding rx_buffer_decode fixed_header_decode
failed_stays_failed_example =
    failed_stays_failed counting no_calls (idle waiting_publish) (0 ∷ []) 0 failed_rx refl
      (0xd0 ∷ 0 ∷ [])

abbrev seen : OnPublish ℕ
seen p s = (true, p, record s { heap = record s.heap { world = suc s.heap.world } })

counting-KeepsTaking : KeepsTaking counting
counting-KeepsTaking = record {
  on_publish = λ f e p s t.
      let same : seen ≡ f = ground (arith, e) in
      subst (λ (h : OnPublish ℕ). TakesBoth (h p s).1) same t;
  on_topic = λ f e. absurd (ground (arith, e));
  on_payload = λ f e. absurd (ground (arith, e));
  on_deallocate = λ f e. absurd (ground (arith, e));
}

-- A PUBLISH of QoS 1 and the first bytes of another packet.
abbrev some_bytes : List ℕ
some_bytes = 0x32 ∷ 6 ∷ 0 ∷ 1 ∷ 0x74 ∷ 0 ∷ 7 ∷ 1 ∷ 0x40 ∷ 2 ∷ []

decode_ends_example :
    rx_buffer_decode counting no_calls (idle waiting_publish) some_bytes ≢ unfinished
decode_ends_example =
    decode_ends counting counting-KeepsTaking no_calls (idle waiting_publish) some_bytes
      (record { takes = (tt, tt); inside = λ whole. absurd (ground (arith, whole)) })

publish-IsValid : Valid.IsValid waiting_publish.store
publish-IsValid = record {
  sent_in = omega arith;
  fits = omega arith;
  storage = omega arith;
  id_in = omega arith;
}

answered_example : IsAnswered counting no_calls puback_answer waiting_publish 0x102
answered_example =
    answered counting no_calls puback_answer waiting_publish 0x102 publish-IsValid (omega arith)

connack_read_example :
    let e = rx_buffer_decode counting no_calls (idle waiting_connect) (0x20 ∷ 2 ∷ 1 ∷ 0 ∷ []) in
    let (ok, after) =
      call_back no_calls connect_value (noted waiting_connect left_by_connect 0 connection 1) in
    ((n : ℕ) (error : Error)
      → verdict 1 0 ≡ some (n, error)
      → (rx : Rx ℕ) × (e ≡ returned io_error n rx)
        × (rx.error ≡ some error)
        × (rx.shared.heap.world ≡ waiting_connect.heap.world))
    × (verdict 1 0 ≡ none → ok ≡ true → e ≡ returned io_success 4 (idle after))
    × (verdict 1 0 ≡ none
        → ok ≡ false
        → (rx : Rx ℕ) × (e ≡ returned io_error 4 rx)
          × (rx.error ≡ some callback_connack)
          × (rx.shared ≡ after))
unfolding store_pop_marked_by
connack_read_example =
    connack_read counting no_calls waiting_connect connect_value left_by_connect 0 connection refl
      refl 1 0 (omega arith)

long_connack_faults_example :
    rx_buffer_decode counting no_calls (idle waiting_connect) (0x20 ∷ 3 ∷ 0 ∷ 0 ∷ 0 ∷ []) ≡ fault
unfolding store_pop_marked_by
long_connack_faults_example =
    long_connack_faults counting no_calls waiting_connect connect_value left_by_connect 0 connection
      refl refl 3 0 (0 ∷ []) (omega arith) (omega arith) (omega arith)

abbrev nothing_given : Shared Given
nothing_given = record {
  store = store_with more_entries 0;
  id_set = record { items = 0 ∷ 0 ∷ 0 ∷ []; capacity = 3; count = 0 };
  heap = record { objects = []; world = [] };
}

abbrev story : List Event
story = message false 7 0x74 1 ∷ message true 7 0x74 1 ∷ release 7 ∷ message false 7 0x74 2 ∷ []

story-HasRoom : HasRoom nothing_given story
story-HasRoom = record {
  valid = record { fits = omega arith; storage = omega arith; distinct = tt };
  ids = omega arith;
  answers = omega arith;
}

abbrev no_requests : StoredCalls Given
no_requests f d v s = (true, s)

delivered_once_example :
    (last : Shared Given) × (run no_requests (idle nothing_given) story ≡ some (idle last))
    × (last.heap.world ≡ (0x74 ∷ 2 ∷ []) ∷ (0x74 ∷ 1 ∷ []) ∷ [])
unfolding id_set_contains
delivered_once_example =
    delivered_once no_requests story nothing_given
      (omega arith, (omega arith, (omega arith, (omega arith, omega arith)))) story-HasRoom
