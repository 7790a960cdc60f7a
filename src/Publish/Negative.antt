-- ===== src/Publish/Negative.antt =====
-- A payload of negative length.
use lightmqtt.Prelude.{ℕ, ◌+◌, ◌≤◌, ◌<◌, ◌≡◌, arith, true, none}
use lightmqtt.Prelude.{◌==◌, if◌then◌else◌}
use lightmqtt.Prelude.Int.{pos, negsuc, ◌+ℤ◌}
use lightmqtt.Header.{encode_remaining_length}
use lightmqtt.Encode.{EncodeBuffer}
use lightmqtt.Publish.{
  Publish, publish_calc_remaining_length, publish_validate, publish_build_fixed_header,
}

-- A packet with a topic of 1 to 65535 bytes, a QoS of 0 to 2, and a payload whose negative length,
-- -(n + 1), makes the remaining length negative, passes `lmqtt_publish_validate`, and then the assertion of
-- `encode_remaining_length` fails when its fixed header is built.
pub negative_payload_faults :
    {W : Type 0} (p : Publish W) (b : EncodeBuffer) (t n : ℕ)
    → p.topic.len ≡ pos t
    → 0 < t
    → t ≤ 0xffff
    → p.qos ≤ 2
    → p.payload.len ≡ negsuc n
    → 2 + t + (if p.qos == 0 then 0 else 2) ≤ n
    → (publish_validate p ≡ true) × (publish_build_fixed_header p b ≡ none)
unfolding publish_validate publish_calc_remaining_length publish_build_fixed_header
    encode_remaining_length ◌+ℤ◌
negative_payload_faults p b t n topic some_topic small q payload big =
    ground (arith, topic, payload)
