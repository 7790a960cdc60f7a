-- ===== src/Tx/Tests.antt =====
-- Runs of `lmqtt_tx_buffer_encode`.
use lightmqtt.Prelude.{
  ℕ, ◌+◌, ◌≡◌, refl, arith, true, false, none, some, List, [], ◌∷◌, ◌++◌, length,
}
use lightmqtt.Prelude.Int.{pos, ◌+ℤ◌}
use lightmqtt.Header.{encode_remaining_length}
use lightmqtt.Encode.{zero_buffer, built, encode_buffer_encode}
use lightmqtt.Encode.Pieces.{part}
use lightmqtt.Strings.{LmqttString, string_encode}
use lightmqtt.Acks.{pingreq_encode_fixed_header}
use lightmqtt.Strings.Encoding.{IsMemory}
use lightmqtt.Store.{Store, StoreValue, zero_value, store_mark_current, store_peek}
use lightmqtt.Publish.{
  Publish, publish_validate, publish_calc_remaining_length, publish_build_fixed_header,
  publish_encode_fixed_header, publish_encode_topic, publish_encode_packet_id,
  publish_encode_payload,
}
use lightmqtt.Tx.Parts.{Heap, publish_object}
use lightmqtt.Tx.Loop.{Tx, TxEnd, returned, Calls, tx_loop, tx_buffer_reset, tx_buffer_encode}
use lightmqtt.Tx.Rounds.{holding}
use lightmqtt.Store.Valid.{IsValid}
use lightmqtt.Tx.Ends.{encode_ends}
use lightmqtt.Prelude.{◌≢◌}
use lightmqtt.Tx.Loop.{unfinished}
use lightmqtt.Tx.Publishing.{body, sent_once, publish_sent}

abbrev memory : List ℕ → LmqttString Unit
memory bs = record {
  addr = 1;
  len = pos (length bs);
  buf = some bs;
  read = none;
  write = none;
  pos = 0;
}

abbrev memory-IsMemory : (bs : List ℕ) → IsMemory (memory bs) bs
memory-IsMemory bs = record { len_eq = refl; buf_eq = refl; no_read = refl }

abbrev topic : List ℕ
topic = b't' ∷ []

abbrev payload : List ℕ
payload = 1 ∷ 2 ∷ 3 ∷ []

abbrev message : Publish Unit
message = record {
  qos = 1;
  retain = false;
  topic = memory topic;
  payload = memory payload;
  encode_count = 0;
}

abbrev heap : Heap Unit
heap = record { objects = publish_object message ∷ []; world = tt }

abbrev value : StoreValue
value = record zero_value { packet_id = 0x102; value = some 0 }

-- A message of QoS 1 and a PINGREQ wait.
abbrev store : Store
store = record {
  keep_alive = 10;
  timeout = 5;
  next_packet_id = 1;
  last_touch = record { secs = pos 0; nsecs = pos 0 };
  count = 2;
  pos = 0;
  capacity = 2;
  entries = record { kind = 202; value = value } ∷ record { kind = 210; value = zero_value } ∷ [];
}

abbrev tx : Tx
tx = record {
  store = store;
  closed = false;
  pos = 0;
  offset = 0;
  buffer = zero_buffer;
  error = none;
  os_error = 0;
}

abbrev no_calls : Calls Unit
no_calls f d v h = (true, h)

publish_sent_example :
    (n : ℕ) × (m : ℕ) × (tx_loop no_calls (6 + 5) none 64 tx heap []
      ≡ tx_loop no_calls 5 none 64
          (tx_buffer_reset (record tx { store = (store_mark_current store).1 }))
          (holding heap 0 (sent_once message n m))
          ([] ++ (part (built zero_buffer (0x32 ∷ 8 ∷ [])) ++ body topic 0x102 payload)))
unfolding publish_validate publish_calc_remaining_length ◌+ℤ◌ publish_build_fixed_header
    encode_remaining_length store_peek
publish_sent_example =
    publish_sent no_calls false value heap 0 message topic payload refl refl (memory-IsMemory topic)
      (memory-IsMemory payload) refl (omega arith) 5 64 tx (built zero_buffer (0x32 ∷ 8 ∷ [])) []
      refl refl refl refl refl refl refl (omega arith)

-- The bytes of a run.
bytes_of : TxEnd Unit → List ℕ
bytes_of (returned r bytes tx' heap') = bytes
bytes_of _ = []

whole_run :
    bytes_of (tx_buffer_encode no_calls 20 64 tx heap)
    ≡ 0x32 ∷ 8 ∷ 0 ∷ 1 ∷ b't' ∷ 1 ∷ 2 ∷ 1 ∷ 2 ∷ 3 ∷ 0xc0 ∷ 0 ∷ []
unfolding tx_buffer_encode bytes_of ◌+ℤ◌ publish_calc_remaining_length publish_encode_fixed_header
    encode_buffer_encode publish_validate encode_remaining_length publish_encode_topic string_encode
    publish_encode_packet_id publish_encode_payload store_mark_current pingreq_encode_fixed_header
whole_run = refl

store-IsValid : IsValid store
store-IsValid = record {
  sent_in = omega arith;
  fits = omega arith;
  storage = omega arith;
  id_in = omega arith;
}

encode_ends_example : tx_buffer_encode no_calls 19 64 tx heap ≢ unfinished
encode_ends_example =
    encode_ends no_calls (λ f d v h. refl) 19 64 tx heap store-IsValid (omega arith)
