-- ===== src/Rx/Once/Packets.antt =====
-- A PUBLISH of QoS 2 and a PUBREL, read by a buffer that stands between two packets.
use lightmqtt.Prelude.{
  ℕ, ◌/◌, ◌%◌, ◌^◌, ◌<◌, ◌≡◌, refl, sym, subst, ap, ◌∙◌, arith, Bool, true, false, none, some, List,
  [], ◌∷◌, ◌++◌,
}
use lightmqtt.Prelude.{if◌then◌else◌, replicate}
use lightmqtt.Prelude.Int.{pos}
use lightmqtt.Core.{io_success, IoResult, io_error}
use lightmqtt.Header.{finished, fresh, fixed_header_decode, FixedHeader}
use lightmqtt.Strings.{LmqttString, string_write, bytes_or_nil}
use lightmqtt.Rx.State.{
  Shared, Rx, MessageCallbacks, StoredCalls, allocate_success, topic_addr, payload_addr,
  zero_string, zero_publish, publish, pubrel, rx_buffer_reset,
}
use lightmqtt.Publish.{Publish}
use lightmqtt.Rx.Decoders.{rx_buffer_decoders}
use lightmqtt.Rx.Publish.{
  or_byte, rx_publish_end, rx_buffer_decode_publish, rx_publish_bytes, rx_publish_next,
  rx_buffer_allocate_write, rx_allocate, rx_write,
}
use lightmqtt.Rx.Decode.{
  pop_packet_without_id, decode_remaining, rx_buffer_decode_remaining_without_id,
  rx_buffer_decode_remaining_with_id, rx_buffer_decode_type, pop_packet_with_id, rx_buffer_pubrel,
}
use lightmqtt.Rx.Finish.{
  rx_buffer_is_packet_finished, rx_buffer_finish_packet, rx_finish_callback,
  rx_buffer_call_callback,
}
use lightmqtt.Rx.Loop.{
  returned, rx_header_step, rx_header_finished, rx_remaining_step, rx_finish_step, rx_step,
  rx_return, rx_loop, rx_buffer_decode,
}
use lightmqtt.Rx.Idle.{idle, packet_id_bytes, loop_taken}
use lightmqtt.Rx.State.{Decoding}
use lightmqtt.Rx.Loop.{taken}
use lightmqtt.Encode.{◌>>=◌}
use lightmqtt.IdSet.{id_set_contains, id_set_put, id_set_remove}
use lightmqtt.Store.{zero_value, store_append}
use lightmqtt.Core
use lightmqtt.Core.{kind_code}
use lightmqtt.Rx.Publish.{rx_acknowledge, rx_deliver, rx_on_publish, rx_buffer_deallocate_publish}

-- What the application has been given, the last message first.
abbrev pub Given : Type 0
Given = List (List ℕ)

abbrev room_for : ℕ → ℕ → LmqttString Given
room_for addr len = record (zero_string addr) { len = pos len; buf = some (replicate len 0) }

-- An application that allocates memory for every message and keeps what it is given: the bytes of
-- the topic and those of the payload.
abbrev pub keeping : MessageCallbacks Given
keeping = record {
  on_publish = some (λ p s. (
    true,
    p,
    record s {
      heap = record s.heap {
        world = (bytes_or_nil p.topic.buf ++ bytes_or_nil p.payload.buf) ∷ s.heap.world;
      };
    },
  ));
  on_publish_allocate_topic =
      some (λ p len s. (allocate_success, record p { topic = room_for topic_addr len }, s));
  on_publish_allocate_payload =
      some (λ p len s. (allocate_success, record p { payload = room_for payload_addr len }, s));
  on_publish_deallocate = none;
}

-- A PUBLISH of QoS 2, sent again or not, with a topic and a payload of one byte.
abbrev pub publish_bytes : Bool → ℕ → ℕ → ℕ → List ℕ
publish_bytes dup id t b =
    (if dup then 0x3c else 0x34) ∷ 6 ∷ 0 ∷ 1 ∷ t ∷ id / 256 ∷ id % 256 ∷ b ∷ []

abbrev pub pubrel_bytes : ℕ → List ℕ
pubrel_bytes id = 0x62 ∷ 2 ∷ id / 256 ∷ id % 256 ∷ []

abbrev header_of : Bool → FixedHeader
header_of dup =
    (fixed_header_decode (fixed_header_decode fresh (if dup then 0x3c else 0x34)).header 6).header

abbrev one_byte : ℕ → ℕ → LmqttString Given
one_byte addr b = record (room_for addr 1) { buf = some (b ∷ []); pos = 1 }

-- What the packets leave of what the buffer shares: the answer in the store, and the id and the
-- message where they are new.
abbrev pub reply : Shared Given → ℕ → ℕ → Shared Given
reply shared kind id = record shared {
  store = (store_append shared.store kind (some (record zero_value { packet_id = id }))).1;
}

abbrev pub kept : Shared Given → ℕ → ℕ → ℕ → Shared Given
kept shared id t b = record (reply shared (kind_code Core.Kind.pubrec) id) {
  id_set = (id_set_put shared.id_set id).1;
  heap = record shared.heap { world = (t ∷ b ∷ []) ∷ shared.heap.world };
}

abbrev pub released : Shared Given → ℕ → Shared Given
released shared id = record (reply shared (kind_code Core.Kind.pubcomp) id) {
  id_set = (id_set_remove shared.id_set id).1;
}

module _ (calls : StoredCalls Given) where
  -- The state before the payload.
  abbrev at_payload : Bool → Shared Given → ℕ → ℕ → Rx Given
  at_payload dup shared id t = record (idle shared) {
    header = header_of dup;
    header_finished = true;
    decoder = some publish;
    remain_buf_pos = 5;
    topic_len = 1;
    packet_id = id;
    publish = record zero_publish { topic = one_byte topic_addr t };
  }

  topic_read :
      (dup : Bool) (shared : Shared Given) (t hi lo b : ℕ)
      → rx_buffer_decode keeping calls
          (idle shared)
          ((if dup then 0x3c else 0x34) ∷ 6 ∷ 0 ∷ 1 ∷ t ∷ hi ∷ lo ∷ b ∷ [])
        ≡ rx_loop keeping calls 1 8 7
            (at_payload dup shared (or_byte (or_byte 0 hi 1) lo 0) t)
            (b ∷ [])
  unfolding rx_buffer_decode rx_loop rx_step rx_header_step rx_header_finished rx_buffer_decoders
      pop_packet_without_id fixed_header_decode rx_finish_step rx_buffer_is_packet_finished
      rx_remaining_step decode_remaining rx_buffer_decode_remaining_without_id rx_buffer_decode_type
      rx_buffer_decode_publish rx_publish_bytes rx_publish_next rx_buffer_allocate_write rx_allocate
      rx_write string_write
  topic_read true shared t hi lo b = refl
  topic_read false shared t hi lo b = refl

  -- The state behind the payload.
  abbrev complete : Bool → Shared Given → ℕ → ℕ → ℕ → Rx Given
  complete dup shared id t b = record (at_payload dup shared id t) {
    publish = record zero_publish {
      topic = one_byte topic_addr t;
      payload = one_byte payload_addr b;
    };
  }

  payload_bytes :
      (dup : Bool) (shared : Shared Given) (id t b : ℕ)
      → rx_publish_bytes keeping (at_payload dup shared id t) b (b ∷ [])
        ≡ some (record { result = finished; written = 1; rx = complete dup shared id t b })
  unfolding rx_publish_bytes rx_buffer_allocate_write rx_allocate rx_write string_write
      fixed_header_decode
  payload_bytes true shared id t b = refl
  payload_bytes false shared id t b = refl

  payload_next :
      (dup : Bool) (shared : Shared Given) (id t b : ℕ)
      → rx_publish_next keeping
          (record { result = finished; written = 1; rx = complete dup shared id t b })
        ≡ record (rx_publish_end keeping (complete dup shared id t b)) { written = 1 }
  unfolding rx_publish_next fixed_header_decode
  payload_next true shared id t b = refl
  payload_next false shared id t b = refl

  -- The state behind a PUBLISH that was taken in.
  abbrev taken_in : Bool → Shared Given → ℕ → ℕ → ℕ → Shared Given → Publish Given → Rx Given
  taken_in dup shared id t b after p = record (complete dup shared id t b) {
    shared = after;
    publish = p;
  }

  payload_read :
      (dup : Bool) (shared after : Shared Given) (id t b : ℕ) (p : Publish Given)
      → rx_publish_end keeping (complete dup shared id t b)
        ≡ record { result = finished; written = 0; rx = taken_in dup shared id t b after p }
      → rx_buffer_decode_publish keeping (at_payload dup shared id t) (b ∷ [])
        ≡ some (record { result = finished; written = 1; rx = taken_in dup shared id t b after p })
  unfolding rx_buffer_decode_publish
  payload_read dup shared after id t b p e =
      ap (λ d. d >>= λ x. some (rx_publish_next keeping x)) (payload_bytes dup shared id t b)
      ∙ ap some (payload_next dup shared id t b)
      ∙ ap (λ (d : Decoding Given). some (record d { written = 1 })) e

  held_end :
      (dup : Bool) (shared : Shared Given) (id t b : ℕ)
      → id_set_contains shared.id_set id ≡ true
      → rx_publish_end keeping (complete dup shared id t b) ≡ record {
        result = finished;
        written = 0;
        rx = record (complete dup shared id t b) {
          shared = reply shared (kind_code Core.Kind.pubrec) id;
        };
      }
  unfolding fixed_header_decode rx_publish_end rx_acknowledge rx_buffer_deallocate_publish
  held_end true shared id t b held = ground (arith, held)
  held_end false shared id t b held = ground (arith, held)

  new_end :
      (dup : Bool) (shared : Shared Given) (id t b : ℕ)
      → id_set_contains shared.id_set id ≡ false
      → (id_set_put shared.id_set id).0 ≡ true
      → rx_publish_end keeping (complete dup shared id t b) ≡ record {
        result = finished;
        written = 0;
        rx = record (complete dup shared id t b) {
          shared = kept shared id t b;
          publish = record (complete dup shared id t b).publish { qos = 2 };
        };
      }
  unfolding fixed_header_decode rx_publish_end rx_acknowledge rx_deliver rx_on_publish
      rx_buffer_deallocate_publish
  new_end true shared id t b new fits = ground (arith, new, fits)
  new_end false shared id t b new fits = ground (arith, new, fits)

  -- A PUBLISH whose last byte is taken is done.
  last_step :
      (dup : Bool) (shared after : Shared Given) (id t b : ℕ) (p : Publish Given)
      → rx_buffer_decode_publish keeping (at_payload dup shared id t) (b ∷ [])
        ≡ some (record { result = finished; written = 1; rx = taken_in dup shared id t b after p })
      → rx_step keeping calls (at_payload dup shared id t) b [] ≡ taken 1 (idle after)
  unfolding rx_step rx_remaining_step decode_remaining rx_buffer_decode_remaining_without_id
      rx_buffer_decode_type fixed_header_decode rx_finish_step rx_buffer_is_packet_finished
      rx_buffer_finish_packet rx_finish_callback rx_buffer_call_callback rx_buffer_reset
  last_step true shared after id t b p e = ground (arith, e)
  last_step false shared after id t b p e = ground (arith, e)

  last_read :
      (dup : Bool) (shared after : Shared Given) (id t b : ℕ) (p : Publish Given)
      → rx_publish_end keeping (complete dup shared id t b)
        ≡ record { result = finished; written = 0; rx = taken_in dup shared id t b after p }
      → rx_loop keeping calls 1 8 7 (at_payload dup shared id t) (b ∷ [])
        ≡ returned io_success 8 (idle after)
  unfolding rx_loop rx_return
  last_read dup shared after id t b p e =
      loop_taken keeping calls 0 8 7 b (at_payload dup shared id t) (idle after) []
        (last_step dup shared after id t b p (payload_read dup shared after id t b p e))

  -- The state before the second byte of the packet id.
  abbrev at_id : Shared Given → ℕ → Rx Given
  at_id shared high = record (idle shared) {
    header = (fixed_header_decode (fixed_header_decode fresh 0x62).header 2).header;
    header_finished = true;
    decoder = some pubrel;
    remain_buf_pos = 1;
    packet_id = high;
  }

  high_read :
      (shared : Shared Given) (hi lo : ℕ)
      → rx_buffer_decode keeping calls (idle shared) (0x62 ∷ 2 ∷ hi ∷ lo ∷ [])
        ≡ rx_loop keeping calls 1 4 3 (at_id shared (or_byte 0 hi 1)) (lo ∷ [])
  unfolding rx_buffer_decode rx_loop rx_step rx_header_step rx_header_finished rx_buffer_decoders
      pop_packet_without_id fixed_header_decode rx_finish_step rx_buffer_is_packet_finished
      rx_remaining_step decode_remaining rx_buffer_decode_remaining_with_id
  high_read shared hi lo = refl

  release_read :
      (shared : Shared Given) (high lo : ℕ)
      → (store_append shared.store
          (kind_code Core.Kind.pubcomp)
          (some (record zero_value { packet_id = or_byte high lo 0 }))).0
        ≡ true
      → rx_loop keeping calls 1 4 3 (at_id shared high) (lo ∷ [])
        ≡ returned io_success 4 (idle (released shared (or_byte high lo 0)))
  unfolding rx_loop rx_step rx_remaining_step decode_remaining rx_buffer_decode_remaining_with_id
      pop_packet_with_id rx_buffer_pubrel fixed_header_decode rx_finish_step
      rx_buffer_is_packet_finished rx_buffer_finish_packet rx_finish_callback
      rx_buffer_call_callback rx_buffer_reset rx_return
  release_read shared high lo room = ground (arith, room)

  -- The packets, whole.
  pub again_decoded :
      (dup : Bool) (shared : Shared Given) (id t b : ℕ)
      → id < 2 ^ 16
      → id_set_contains shared.id_set id ≡ true
      → rx_buffer_decode keeping calls (idle shared) (publish_bytes dup id t b)
        ≡ returned io_success 8 (idle (reply shared (kind_code Core.Kind.pubrec) id))
  again_decoded dup shared id t b narrow held =
      topic_read dup shared t (id / 256) (id % 256) b
      ∙ ap (λ n. rx_loop keeping calls 1 8 7 (at_payload dup shared n t) (b ∷ []))
          (packet_id_bytes id narrow)
      ∙ last_read dup shared (reply shared (kind_code Core.Kind.pubrec) id) id t b
          (complete dup shared id t b).publish (held_end dup shared id t b held)

  pub new_decoded :
      (dup : Bool) (shared : Shared Given) (id t b : ℕ)
      → id < 2 ^ 16
      → id_set_contains shared.id_set id ≡ false
      → (id_set_put shared.id_set id).0 ≡ true
      → rx_buffer_decode keeping calls (idle shared) (publish_bytes dup id t b)
        ≡ returned io_success 8 (idle (kept shared id t b))
  new_decoded dup shared id t b narrow new fits =
      topic_read dup shared t (id / 256) (id % 256) b
      ∙ ap (λ n. rx_loop keeping calls 1 8 7 (at_payload dup shared n t) (b ∷ []))
          (packet_id_bytes id narrow)
      ∙ last_read dup shared (kept shared id t b) id t b
          (record (complete dup shared id t b).publish { qos = 2 })
          (new_end dup shared id t b new fits)

  pub release_decoded :
      (shared : Shared Given) (id : ℕ)
      → id < 2 ^ 16
      → (store_append shared.store
          (kind_code Core.Kind.pubcomp)
          (some (record zero_value { packet_id = id }))).0
        ≡ true
      → rx_buffer_decode keeping calls (idle shared) (pubrel_bytes id)
        ≡ returned io_success 4 (idle (released shared id))
  release_decoded shared id narrow room =
      let same = packet_id_bytes id narrow in
      let appended : ℕ → Type 0 = λ n.
        (store_append shared.store (kind_code Core.Kind.pubcomp)
          (some (record zero_value { packet_id = n }))).0
        ≡ true in
      high_read shared (id / 256) (id % 256)
      ∙ release_read shared (or_byte 0 (id / 256) 1) (id % 256) (subst appended (sym same) room)
      ∙ ap (λ n. returned io_success 4 (idle (released shared n))) same
