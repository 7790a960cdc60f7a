-- ===== src/Rx/Publish.antt =====
-- `rx_buffer_decode_publish` and what it calls. `none` is a fault.
use lightmqtt.Prelude.{
  ℕ, ◌+◌, ◌-◌, ◌*◌, ◌%◌, ◌^◌, Bool, true, false, not, ◌&&◌, ◌||◌, Option, none, some, List, [], ◌∷◌,
}
use lightmqtt.Prelude.{length, take, ltb, leb, ◌==◌, if◌then◌else◌, min, bit_or}
use lightmqtt.Core.{
  Error, decode_publish_invalid_length, decode_publish_id_set_full,
  decode_publish_topic_allocate_failed, decode_publish_topic_write_failed,
  decode_publish_payload_allocate_failed, decode_publish_payload_write_failed,
  decode_publish_message_callback_failed, kind_code,
}
use lightmqtt.Core
use lightmqtt.Header.{finished, continue, would_block, failed}
use lightmqtt.IdSet.{id_set_contains, id_set_put}
use lightmqtt.Encode.{◌>>=◌}
use lightmqtt.Strings.{LmqttString, string_write, string_success, string_would_block, is_some}
use lightmqtt.Store.{zero_value, store_append}
use lightmqtt.Publish.{Publish}
use lightmqtt.Rx.State.{
  Shared, MessageCallbacks, OnAllocate, allocate_success, allocate_ignore, allocate_error, Rx,
  rx_buffer_fail, Decoding,
}

-- `struct _lmqtt_publish_part_t`: `rx_buffer_publish_part_topic` and `rx_buffer_publish_part_payload`.
pub data PublishPart : Type 0 where
  part_topic part_payload : PublishPart

abbrev pub part_allocate_error : PublishPart → Error
part_allocate_error part_topic = decode_publish_topic_allocate_failed
part_allocate_error part_payload = decode_publish_payload_allocate_failed

abbrev pub part_string_error : PublishPart → Error
part_string_error part_topic = decode_publish_topic_write_failed
part_string_error part_payload = decode_publish_payload_write_failed

-- What `rx_buffer_allocate_write` returns and writes.
pub record AllocateWrite (W : Type 0) : Type 0 where
  pub ok : Bool
  pub written : ℕ
  pub rx : Rx W

-- `packet_id |= b << (8 * shift)`, and the same for `topic_len`
abbrev pub or_byte : ℕ → ℕ → ℕ → ℕ
or_byte v b shift = bit_or v (b * 2 ^ (shift * 8)) % 2 ^ 16

module _ {W : Type 0} (message : MessageCallbacks W) where
  abbrev pub get_allocate : PublishPart → Option (OnAllocate W)
  get_allocate part_topic = message.on_publish_allocate_topic
  get_allocate part_payload = message.on_publish_allocate_payload

  abbrev pub get_string : PublishPart → Publish W → LmqttString W
  get_string part_topic p = p.topic
  get_string part_payload p = p.payload

  abbrev pub set_string : PublishPart → Publish W → LmqttString W → Publish W
  set_string part_topic p s = record p { topic = s }
  set_string part_payload p s = record p { payload = s }

  abbrev pub set_shared : Rx W → Publish W → Shared W → Rx W
  set_shared rx publish shared = record rx { publish = publish; shared = shared }

  -- The call of the allocation callback, at the first byte of the part.
  unfoldable pub rx_allocate : Rx W → ℕ → PublishPart → ℕ → Bool × Rx W
  unfolding rx_buffer_fail
  rx_allocate rx when part len = elim (get_allocate part) [
    | none ↦ (true, rx)
    | some allocate ↦
        let (r, publish, shared) = allocate rx.publish len rx.shared in
        let rx' = set_shared rx publish shared in
        if not rx.ignore_publish && (rx.remain_buf_pos + 1 == when)
        then elim r [
          | allocate_success ↦ (true, record rx' { ignore_publish = false })
          | allocate_ignore ↦ (true, record rx' { ignore_publish = true })
          | allocate_error ↦ (false, rx_buffer_fail rx' (some (part_allocate_error part)) 0)
        ]
        else (true, rx)
  ]

  -- The write of `buf` to the string of the part, or past it if the packet is ignored.
  unfoldable pub rx_write : Rx W → PublishPart → List ℕ → Option (AllocateWrite W)
  unfolding rx_buffer_fail
  rx_write rx part buf =
      if rx.ignore_publish
      then some (record { ok = true; written = length buf; rx = rx })
      else (string_write (get_string part rx.publish) buf rx.shared.heap.world >>= λ m.
          let rx' = record rx {
            publish = set_string part rx.publish m.str;
            shared = record rx.shared { heap = record rx.shared.heap { world = m.world } };
            blocking_str = none;
          } in
          elim m.result [
            | string_success ↦ some (record { ok = true; written = m.count; rx = rx' })
            | string_would_block ↦ some (record {
              ok = true;
              written = m.count;
              rx = record rx' { blocking_str = some m.str.addr };
            })
            | _ ↦ some (record {
              ok = false;
              written = m.count;
              rx = rx_buffer_fail rx' (some (part_string_error part)) m.os_error;
            })
          ])

  -- `rx_buffer_allocate_write`
  unfoldable pub rx_buffer_allocate_write :
      Rx W → ℕ → PublishPart → ℕ → List ℕ → Option (AllocateWrite W)
  unfolding rx_allocate rx_write
  rx_buffer_allocate_write rx when part len buf =
      let max_len = len - (rx.remain_buf_pos + 1 - when) in
      let (ok, rx') = rx_allocate rx when part len in
      if ok
      then rx_write rx' part (take (min (length buf) max_len) buf)
      else some (record { ok = false; written = 0; rx = rx' })

  -- `rx_buffer_deallocate_publish`
  unfoldable pub rx_buffer_deallocate_publish : Rx W → Rx W
  rx_buffer_deallocate_publish rx = elim message.on_publish_deallocate [
    | none ↦ rx
    | some deallocate ↦
        let (publish, shared) = deallocate rx.publish rx.shared in
        if rx.ignore_publish then rx else set_shared rx publish shared
  ]

  -- The call of `on_publish`, for a packet that is not ignored.
  unfoldable pub rx_on_publish : Rx W → Bool × Rx W
  rx_on_publish rx = elim message.on_publish [
    | none ↦ (true, rx)
    | some on_publish ↦
        let (ok, publish, shared) = on_publish rx.publish rx.shared in
        if rx.ignore_publish then (true, rx) else (ok, set_shared rx publish shared)
  ]

  abbrev pub in_id_set : Rx W → Bool
  in_id_set rx = id_set_contains rx.shared.id_set rx.packet_id

  -- The acknowledgement: a PUBACK for QoS 1, a PUBREC for QoS 2. What `lmqtt_store_append` returns
  -- is ignored.
  unfoldable pub rx_acknowledge : Rx W → Rx W
  rx_acknowledge rx =
      if rx.header.qos == 0
      then rx
      else let kind =
          if rx.header.qos == 2 then kind_code Core.Kind.pubrec else kind_code Core.Kind.puback in
        let v = record zero_value { packet_id = rx.packet_id } in
        record rx {
          shared = record rx.shared { store = (store_append rx.shared.store kind (some v)).1 };
        }

  -- The delivery of a message that was not delivered before.
  unfoldable pub rx_deliver : Rx W → Decoding W
  unfolding rx_on_publish rx_buffer_deallocate_publish rx_buffer_fail
  rx_deliver rx =
      let rx' = record rx {
        publish = record rx.publish { qos = rx.header.qos; retain = not (rx.header.retain == 0) };
      } in
      let (ok, rx'') = rx_on_publish rx' in
      let last = rx_buffer_deallocate_publish rx'' in
      if ok then record { result = finished; written = 0; rx = last } else record {
        result = failed;
        written = 0;
        rx = rx_buffer_fail last (some decode_publish_message_callback_failed) 0;
      }

  -- The end of `rx_buffer_decode_publish`, behind the last byte.
  unfoldable pub rx_publish_end : Rx W → Decoding W
  unfolding rx_acknowledge rx_deliver rx_buffer_deallocate_publish rx_buffer_fail
  rx_publish_end rx =
      let acked = rx_acknowledge rx in
      let (put, ids) = id_set_put acked.shared.id_set acked.packet_id in
      let kept = record acked { shared = record acked.shared { id_set = ids } } in
      if not (rx.header.qos == 2)
      then rx_deliver acked
      else if in_id_set acked
      then record { result = finished; written = 0; rx = rx_buffer_deallocate_publish acked }
      else if put
      then rx_deliver kept
      else record {
        result = failed;
        written = 0;
        rx =
            rx_buffer_fail (rx_buffer_deallocate_publish acked) (some decode_publish_id_set_full) 0;
      }

  abbrev pub id_size : Rx W → ℕ
  id_size rx = if rx.header.qos == 0 then 0 else 2

  -- What the bytes of the packet do; the result `finished` stands for going on to the tests behind.
  unfoldable pub rx_publish_bytes : Rx W → ℕ → List ℕ → Option (Decoding W)
  unfolding rx_buffer_allocate_write rx_buffer_deallocate_publish rx_buffer_fail
  rx_publish_bytes rx b buf =
      let rem_len = rx.header.remaining_length in
      let rem_pos = rx.remain_buf_pos + 1 in
      let p_len = id_size rx in
      let p_start = 2 + rx.topic_len in
      let long = record rx { topic_len = or_byte rx.topic_len b (2 - rem_pos) } in
      let rx' = record rx {
        ignore_publish =
            if (rem_pos == 3)
              && (not (is_some message.on_publish)
                  || not (is_some message.on_publish_allocate_topic)
                  || not (is_some message.on_publish_allocate_payload))
            then true
            else rx.ignore_publish;
      } in
      let identified = record rx' {
        packet_id = or_byte rx'.packet_id b (p_len + p_start - rem_pos);
      } in
      let part : ℕ → PublishPart → ℕ → Option (Decoding W) = λ when part len.
        rx_buffer_allocate_write rx' when part len buf >>= λ a. some (
          if a.ok then record { result = finished; written = a.written; rx = a.rx } else record {
            result = failed;
            written = a.written;
            rx = rx_buffer_deallocate_publish a.rx;
          }) in
      if leb rem_pos 2
      then (if (rem_pos == 2) && ((long.topic_len == 0) || ltb rem_len (long.topic_len + 2 + p_len))
          then some (record {
            result = failed;
            written = 0;
            rx = rx_buffer_fail long (some decode_publish_invalid_length) 0;
          })
          else some (record { result = finished; written = 1; rx = long }))
      else if leb rem_pos p_start
      then part 3 part_topic rx.topic_len
      else if leb rem_pos (p_start + p_len)
      then some (record { result = finished; written = 1; rx = identified })
      else part (p_start + p_len + 1) part_payload (rem_len - p_len - p_start)

  -- The tests behind the bytes: the packet waits for a string, goes on, or is complete.
  unfoldable pub rx_publish_next : Decoding W → Decoding W
  unfolding rx_publish_end
  rx_publish_next d =
      let e = rx_publish_end d.rx in
      elim d.result [
        | finished ↦
            if is_some d.rx.blocking_str
            then record d { result = would_block }
            else if leb (d.rx.remain_buf_pos + 1 + d.written) d.rx.header.remaining_length
            then record d { result = continue }
            else record e { written = d.written }
        | _ ↦ d
      ]

  -- `rx_buffer_decode_publish`
  unfoldable pub rx_buffer_decode_publish : Rx W → List ℕ → Option (Decoding W)
  unfolding rx_publish_bytes rx_publish_next
  rx_buffer_decode_publish rx [] = none
  rx_buffer_decode_publish rx (b ∷ bs) =
      rx_publish_bytes rx b (b ∷ bs) >>= λ d. some (rx_publish_next d)
