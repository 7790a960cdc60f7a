-- ===== src/Tx/Finders.antt =====
-- The finders: which part of a packet is sent at which place. The result `none` is a fault; the part
-- `none` is the returned null pointer.
use lightmqtt.Prelude.{ℕ, ◌+◌, ◌*◌, ◌-◌, ◌/◌, ◌%◌, ltb, ◌==◌, if◌then◌else◌, Bool, true, false}
use lightmqtt.Prelude.{Option, none, some, List, [], ◌∷◌, get_elem?}
use lightmqtt.Core.{
  Kind, connect, publish_0, publish_1, publish_2, puback, pubrec, pubrel, pubcomp, subscribe,
  unsubscribe, pingreq, disconnect,
}
use lightmqtt.Encode.{◌>>=◌}
use lightmqtt.Strings.{nat_of}
use lightmqtt.Subscribe.{Subscribe}
use lightmqtt.Tx.Parts.{
  subscribe_object, publish_object, Heap, Part, connect_fixed_header, connect_variable_header,
  connect_client_id, connect_will_topic, connect_will_message, connect_user_name, connect_password,
  header_subscribe, header_unsubscribe, subscribe_topic, subscribe_qos, publish_fixed_header,
  publish_topic, publish_packet_id, publish_payload, puback_fixed_header, pubrec_fixed_header,
  pubrel_fixed_header, pubcomp_fixed_header, pingreq_fixed_header, disconnect_fixed_header,
  as_subscribe, as_publish, load, store_object,
}

-- A part and the heap that the finder leaves.
pub record Found (W : Type 0) : Type 0 where
  pub part : Option Part
  pub heap : Heap W

abbrev pub Finder : Type 0 → Type 0
Finder W = ℕ → Option ℕ → Heap W → Option (Found W)

abbrev pub connect_parts : List Part
connect_parts =
    connect_fixed_header ∷ connect_variable_header ∷ connect_client_id ∷ connect_will_topic
    ∷ connect_will_message ∷ connect_user_name ∷ connect_password ∷ []

abbrev pub publish_parts : ℕ → List Part
publish_parts qos =
    if qos == 0
    then publish_fixed_header ∷ publish_topic ∷ publish_payload ∷ []
    else publish_fixed_header ∷ publish_topic ∷ publish_packet_id ∷ publish_payload ∷ []

module _ {W : Type 0} where
  abbrev pub found : Option Part → Heap W → Option (Found W)
  found part heap = some (record { part = part; heap = heap })

  -- `tx_buffer_finder_connect`
  unfoldable pub tx_buffer_finder_connect : Finder W
  tx_buffer_finder_connect place value heap = found (get_elem? connect_parts place) heap

  -- The subscriptions with `internal.current` set.
  abbrev pub point_at : Heap W → ℕ → Subscribe W → Option ℕ → Heap W
  point_at heap at s i = store_object heap at (subscribe_object (record s { current = i }))

  -- `tx_buffer_finder_subscribe`
  unfoldable pub tx_buffer_finder_subscribe : Finder W
  tx_buffer_finder_subscribe place value heap = load as_subscribe heap value >>= λ (at, s).
      if place == 0
      then found (some header_subscribe) (point_at heap at s none)
      else if ltb (place - 1) (nat_of s.count * 2)
      then found (if (place - 1) % 2 == 0 then some subscribe_topic else some subscribe_qos)
          (point_at heap at s (some ((place - 1) / 2)))
      else found none heap

  -- `tx_buffer_finder_unsubscribe`
  unfoldable pub tx_buffer_finder_unsubscribe : Finder W
  tx_buffer_finder_unsubscribe place value heap = load as_subscribe heap value >>= λ (at, s).
      if place == 0
      then found (some header_unsubscribe) (point_at heap at s none)
      else if ltb (place - 1) (nat_of s.count)
      then found (some subscribe_topic) (point_at heap at s (some (place - 1)))
      else found none heap

  -- `tx_buffer_finder_publish`: behind the last part the packet counts as sent once more.
  unfoldable pub tx_buffer_finder_publish : Finder W
  tx_buffer_finder_publish place value heap = load as_publish heap value >>= λ (at, p).
      elim (get_elem? (publish_parts p.qos) place) [
        | some part ↦ found (some part) heap
        | none ↦
            found none (
              store_object heap at
                (publish_object (record p { encode_count = p.encode_count + 1 })))
      ]

  -- `tx_buffer_finder_puback` and those of the other packets of one part.
  unfoldable pub tx_buffer_finder_single : Part → Finder W
  tx_buffer_finder_single part place value heap =
      found (if place == 0 then some part else none) heap

  -- `tx_buffer_finder_by_kind_impl`
  unfoldable pub tx_buffer_finder_by_kind : Kind → Finder W
  unfolding tx_buffer_finder_connect tx_buffer_finder_subscribe tx_buffer_finder_unsubscribe
      tx_buffer_finder_publish tx_buffer_finder_single
  tx_buffer_finder_by_kind connect = tx_buffer_finder_connect
  tx_buffer_finder_by_kind subscribe = tx_buffer_finder_subscribe
  tx_buffer_finder_by_kind unsubscribe = tx_buffer_finder_unsubscribe
  tx_buffer_finder_by_kind publish_0 = tx_buffer_finder_publish
  tx_buffer_finder_by_kind publish_1 = tx_buffer_finder_publish
  tx_buffer_finder_by_kind publish_2 = tx_buffer_finder_publish
  tx_buffer_finder_by_kind puback = tx_buffer_finder_single puback_fixed_header
  tx_buffer_finder_by_kind pubrec = tx_buffer_finder_single pubrec_fixed_header
  tx_buffer_finder_by_kind pubrel = tx_buffer_finder_single pubrel_fixed_header
  tx_buffer_finder_by_kind pubcomp = tx_buffer_finder_single pubcomp_fixed_header
  tx_buffer_finder_by_kind pingreq = tx_buffer_finder_single pingreq_fixed_header
  tx_buffer_finder_by_kind disconnect = tx_buffer_finder_single disconnect_fixed_header

-- `kind_expects_response`
unfoldable pub kind_expects_response : Kind → Bool
kind_expects_response publish_0 = false
kind_expects_response puback = false
kind_expects_response pubrec = false
kind_expects_response pubcomp = false
kind_expects_response disconnect = false
kind_expects_response _ = true

-- The kind that the store keeps as a number; any other number is a fault.
unfoldable pub kind_of : ℕ → Option Kind
kind_of code =
    get_elem?
      (connect ∷ publish_0 ∷ publish_1 ∷ publish_2 ∷ puback ∷ pubrec ∷ pubrel ∷ pubcomp ∷ subscribe
        ∷ unsubscribe ∷ pingreq ∷ disconnect ∷ [])
      (if ltb code 200 then 12 else code - 200)
