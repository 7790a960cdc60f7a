-- ===== src/Publish/Tests.antt =====
-- Runs of the encoders of PUBLISH.
use lightmqtt.Prelude.{ℕ, ◌≡◌, refl, arith, true, none, some, List, [], ◌∷◌, length, inl}
use lightmqtt.Prelude.Int.{pos, negsuc, ◌+ℤ◌}
use lightmqtt.Core.{decode_fixed_header_invalid_flags}
use lightmqtt.Header.{FixedHeader, fresh, feed, done, bad}
use lightmqtt.Encode.{EncodeBuffer, zero_buffer}
use lightmqtt.Encode.Pieces.{part}
use lightmqtt.Strings.{LmqttString}
use lightmqtt.Strings.Encoding.{IsMemory}
use lightmqtt.Publish.{
  Publish, publish_validate, publish_calc_remaining_length, publish_build_fixed_header,
}
use lightmqtt.Publish.Header.{publish_header, publish_again_refused}
use lightmqtt.Publish.Negative.{negative_payload_faults}

abbrev memory : List ℕ → LmqttString Unit
memory bs = record {
  addr = 1;
  len = pos (length bs);
  buf = some bs;
  read = none;
  write = none;
  pos = 0;
}

abbrev memory-IsMemory : (bs : List ℕ) → IsMemory (memory bs) bs
memory-IsMemory bs = record { len_eq = refl; buf_eq = refl; no_read = refl }

abbrev topic : List ℕ
topic = b't' ∷ []

abbrev payload : List ℕ
payload = 1 ∷ 2 ∷ 3 ∷ []

abbrev message : ℕ → ℕ → Publish Unit
message qos encode_count = record {
  qos = qos;
  retain = true;
  topic = memory topic;
  payload = memory payload;
  encode_count = encode_count;
}

-- A message of QoS 1 that is sent again.
publish_header_example :
    (x : EncodeBuffer) × (h : FixedHeader) × (publish_build_fixed_header (message 1 1) zero_buffer
      ≡ some x)
    × (feed fresh (part x) ≡ done h [])
    × (h.type ≡ 3)
    × (h.qos ≡ 1)
    × (h.retain ≡ 1)
    × (h.dup ≡ 1)
    × (h.remaining_length ≡ 8)
unfolding publish_validate publish_calc_remaining_length ◌+ℤ◌
publish_header_example =
    publish_header (message 1 1) topic payload (memory-IsMemory topic) (memory-IsMemory payload)
      zero_buffer refl (inl (omega arith)) refl

publish_again_refused_example :
    (x : EncodeBuffer) × (publish_build_fixed_header (message 0 1) zero_buffer ≡ some x)
    × (feed fresh (part x) ≡ bad (some decode_fixed_header_invalid_flags))
unfolding publish_validate publish_calc_remaining_length ◌+ℤ◌
publish_again_refused_example =
    publish_again_refused (message 0 1) topic payload (memory-IsMemory topic)
      (memory-IsMemory payload) zero_buffer refl refl (omega arith) refl

abbrev negative : Publish Unit
negative = record (message 0 0) { payload = record (memory []) { len = negsuc 9 } }

negative_payload_faults_example :
    (publish_validate negative ≡ true) × (publish_build_fixed_header negative zero_buffer ≡ none)
negative_payload_faults_example =
    negative_payload_faults negative zero_buffer 1 9 refl (omega arith) (omega arith) (omega arith)
      refl (omega arith)
