-- ===== src/Tx/Parts.antt =====
-- The objects that stored values point to, and the encoders of all packets as values.
use lightmqtt.Prelude.{ℕ, Option, none, some, List, get_elem?, set}
use lightmqtt.Encode.{EncodeBuffer, Encoded, ◌>>=◌}
use lightmqtt.Packet.{Encoder}
use lightmqtt.Store.{StoreValue}
use lightmqtt.Connect.{
  Connect, connect_encode_fixed_header, connect_encode_variable_header,
  connect_encode_payload_client_id, connect_encode_payload_will_topic,
  connect_encode_payload_will_message, connect_encode_payload_user_name,
  connect_encode_payload_password,
}
use lightmqtt.Subscribe.{
  Subscribe, subscribe_encode_header_subscribe, subscribe_encode_header_unsubscribe,
  subscribe_encode_topic, subscribe_encode_qos,
}
use lightmqtt.Publish.{
  Publish, publish_encode_fixed_header, publish_encode_topic, publish_encode_packet_id,
  publish_encode_payload,
}
use lightmqtt.Acks.{
  puback_encode_fixed_header, pubrec_encode_fixed_header, pubrel_encode_fixed_header,
  pubcomp_encode_fixed_header, pingreq_encode_fixed_header, disconnect_encode_fixed_header,
}

-- What `value->value` points to.
pub data Object (W : Type 0) : Type 0 where
  connect_object : Connect W → Object W
  subscribe_object : Subscribe W → Object W
  publish_object : Publish W → Object W

-- The objects by their addresses, and the outside world.
pub record Heap (W : Type 0) : Type 0 where
  pub objects : List (Object W)
  pub world : W

-- An `lmqtt_encoder_t`, by the end of its function's name.
pub data Part : Type 0 where
  connect_fixed_header connect_variable_header connect_client_id connect_will_topic : Part
  connect_will_message connect_user_name connect_password : Part
  header_subscribe header_unsubscribe subscribe_topic subscribe_qos : Part
  publish_fixed_header publish_topic publish_packet_id publish_payload : Part
  puback_fixed_header pubrec_fixed_header pubrel_fixed_header pubcomp_fixed_header : Part
  pingreq_fixed_header disconnect_fixed_header : Part

abbrev pub PartEncoder : Type 0 → Type 0
PartEncoder W = EncodeBuffer → ℕ → ℕ → Heap W → Option (Encoded (Heap W))

module _ {W : Type 0} where
  abbrev pub as_connect : Object W → Option (Connect W)
  as_connect (connect_object c) = some c
  as_connect _ = none

  abbrev pub as_subscribe : Object W → Option (Subscribe W)
  as_subscribe (subscribe_object s) = some s
  as_subscribe _ = none

  abbrev pub as_publish : Object W → Option (Publish W)
  as_publish (publish_object p) = some p
  as_publish _ = none

  -- The object at an address; a null pointer and an object of another type are faults.
  abbrev pub load : {A : Type 0} → (Object W → Option A) → Heap W → Option ℕ → Option (ℕ × A)
  load view heap value =
      value >>= λ at. get_elem? heap.objects at >>= λ o. view o >>= λ a. some (at, a)

  abbrev pub store_object : Heap W → ℕ → Object W → Heap W
  store_object heap at o = record heap { objects = set heap.objects at o }

  -- An encoder of an object, run on the object that `value` points to.
  unfoldable pub on_object :
      {A : Type 0} → (Object W → Option A) → (A → Object W) → Option ℕ → Encoder A W → PartEncoder W
  on_object view object value encoder b offset room heap = load view heap value >>= λ (at, a).
      encoder a b offset room heap.world >>= λ e. some (record {
        result = e.result;
        written = e.written;
        buffer = e.buffer;
        rest = record (store_object heap at (object e.rest.0)) { world = e.rest.1 };
      })

  -- An encoder that looks at no object.
  unfoldable pub on_nothing : Encoder (List (Object W)) W → PartEncoder W
  on_nothing encoder b offset room heap = encoder heap.objects b offset room heap.world >>= λ e.
      some (record {
        result = e.result;
        written = e.written;
        buffer = e.buffer;
        rest = record { objects = e.rest.0; world = e.rest.1 };
      })

  -- The function that a part stands for.
  unfoldable pub run_part : Part → StoreValue → PartEncoder W
  unfolding on_object on_nothing
  run_part connect_fixed_header v =
      on_object as_connect connect_object v.value connect_encode_fixed_header
  run_part connect_variable_header v =
      on_object as_connect connect_object v.value connect_encode_variable_header
  run_part connect_client_id v =
      on_object as_connect connect_object v.value connect_encode_payload_client_id
  run_part connect_will_topic v =
      on_object as_connect connect_object v.value connect_encode_payload_will_topic
  run_part connect_will_message v =
      on_object as_connect connect_object v.value connect_encode_payload_will_message
  run_part connect_user_name v =
      on_object as_connect connect_object v.value connect_encode_payload_user_name
  run_part connect_password v =
      on_object as_connect connect_object v.value connect_encode_payload_password
  run_part header_subscribe v =
      on_object as_subscribe subscribe_object v.value
        (subscribe_encode_header_subscribe v.packet_id)
  run_part header_unsubscribe v =
      on_object as_subscribe subscribe_object v.value
        (subscribe_encode_header_unsubscribe v.packet_id)
  run_part subscribe_topic v =
      on_object as_subscribe subscribe_object v.value subscribe_encode_topic
  run_part subscribe_qos v = on_object as_subscribe subscribe_object v.value subscribe_encode_qos
  run_part publish_fixed_header v =
      on_object as_publish publish_object v.value publish_encode_fixed_header
  run_part publish_topic v = on_object as_publish publish_object v.value publish_encode_topic
  run_part publish_packet_id v =
      on_object as_publish publish_object v.value (publish_encode_packet_id v.packet_id)
  run_part publish_payload v = on_object as_publish publish_object v.value publish_encode_payload
  run_part puback_fixed_header v = on_nothing (puback_encode_fixed_header v.packet_id)
  run_part pubrec_fixed_header v = on_nothing (pubrec_encode_fixed_header v.packet_id)
  run_part pubrel_fixed_header v = on_nothing (pubrel_encode_fixed_header v.packet_id)
  run_part pubcomp_fixed_header v = on_nothing (pubcomp_encode_fixed_header v.packet_id)
  run_part pingreq_fixed_header v = on_nothing pingreq_encode_fixed_header
  run_part disconnect_fixed_header v = on_nothing disconnect_encode_fixed_header
