-- ===== src/Acks.antt =====
-- src/lmqtt_packet.c: the packets that consist of a header alone: PUBACK, PUBREC, PUBREL, PUBCOMP,
-- PINGREQ and DISCONNECT. The builders are given the packet id of the stored value.
pub mod RoundTrip
mod Tests
use lightmqtt.Prelude.{ℕ, some, [], ◌∷◌}
use lightmqtt.Prelude.Int.{pos}
use lightmqtt.Encode.{Builder, built, encode_buffer_encode_packet_id}
use lightmqtt.Packet.{Encoder, part_encoder}

-- `puback_build`
unfoldable pub puback_build : ℕ → Builder
puback_build packet_id = encode_buffer_encode_packet_id 0x40 (pos 2) packet_id

-- `pubrec_build`
unfoldable pub pubrec_build : ℕ → Builder
pubrec_build packet_id = encode_buffer_encode_packet_id 0x50 (pos 2) packet_id

-- `pubrel_build`
unfoldable pub pubrel_build : ℕ → Builder
pubrel_build packet_id = encode_buffer_encode_packet_id 0x62 (pos 2) packet_id

-- `pubcomp_build`
unfoldable pub pubcomp_build : ℕ → Builder
pubcomp_build packet_id = encode_buffer_encode_packet_id 0x70 (pos 2) packet_id

-- `pingreq_build`
unfoldable pub pingreq_build : Builder
pingreq_build b = some (built b (0xc0 ∷ 0 ∷ []))

-- `disconnect_build`
unfoldable pub disconnect_build : Builder
disconnect_build b = some (built b (0xe0 ∷ 0 ∷ []))

module _ {A W : Type 0} where
  -- `puback_encode_fixed_header`
  unfoldable pub puback_encode_fixed_header : ℕ → Encoder A W
  unfolding puback_build
  puback_encode_fixed_header packet_id = part_encoder (λ _. puback_build packet_id)

  -- `pubrec_encode_fixed_header`
  unfoldable pub pubrec_encode_fixed_header : ℕ → Encoder A W
  unfolding pubrec_build
  pubrec_encode_fixed_header packet_id = part_encoder (λ _. pubrec_build packet_id)

  -- `pubrel_encode_fixed_header`
  unfoldable pub pubrel_encode_fixed_header : ℕ → Encoder A W
  unfolding pubrel_build
  pubrel_encode_fixed_header packet_id = part_encoder (λ _. pubrel_build packet_id)

  -- `pubcomp_encode_fixed_header`
  unfoldable pub pubcomp_encode_fixed_header : ℕ → Encoder A W
  unfolding pubcomp_build
  pubcomp_encode_fixed_header packet_id = part_encoder (λ _. pubcomp_build packet_id)

  -- `pingreq_encode_fixed_header`
  unfoldable pub pingreq_encode_fixed_header : Encoder A W
  unfolding pingreq_build
  pingreq_encode_fixed_header = part_encoder (λ _. pingreq_build)

  -- `disconnect_encode_fixed_header`
  unfoldable pub disconnect_encode_fixed_header : Encoder A W
  unfolding disconnect_build
  disconnect_encode_fixed_header = part_encoder (λ _. disconnect_build)
