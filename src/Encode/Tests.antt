-- ===== src/Encode/Tests.antt =====
-- Runs of the encode buffer.
use lightmqtt.Prelude.{ℕ, ◌+◌, ◌*◌, ◌<◌, ◌≡◌, refl, arith, some, List, [], ◌∷◌, take, leb}
use lightmqtt.Prelude.Int.{pos}
use lightmqtt.Header.{FixedHeader, fresh, feed, done, fixed_header_decode}
use lightmqtt.Header.Types.{typed}
use lightmqtt.Header.RoundTrip.{SameType}
use lightmqtt.Encode.{EncodeBuffer, zero_buffer, Builder, built, encode_buffer_encode_packet_id}
use lightmqtt.Encode.Pieces.{sum, send, part, send-part}
use lightmqtt.Encode.PacketId.{packet_id_round_trip}

abbrev five_bytes : List ℕ
five_bytes = 0x40 ∷ 2 ∷ 1 ∷ 2 ∷ 3 ∷ []

abbrev builder : Builder
builder b = some (built b five_bytes)

-- Buffers of 2, 0, 1 and 4 bytes.
send-part_example :
    send builder zero_buffer 0 (2 ∷ 0 ∷ 1 ∷ 4 ∷ [])
    ≡ some (record {
      complete = leb 5 (sum (2 ∷ 0 ∷ 1 ∷ 4 ∷ []));
      bytes = take (sum (2 ∷ 0 ∷ 1 ∷ 4 ∷ [])) (part (built zero_buffer five_bytes));
    })
send-part_example =
    send-part builder zero_buffer (built zero_buffer five_bytes) (2 ∷ 0 ∷ 1 ∷ 4 ∷ []) refl refl
      (omega arith) (omega arith)

packet_id_example :
    (p : EncodeBuffer) × (hi : ℕ) × (lo : ℕ) × (h' : FixedHeader) × (encode_buffer_encode_packet_id
        0x62
        (pos 2)
        0x1234
        zero_buffer
      ≡ some p)
    × (feed fresh (part p) ≡ done h' (hi ∷ lo ∷ []))
    × (h'.remaining_length ≡ 2)
    × SameType h' (typed 6 0 0 0)
    × (256 * hi + lo ≡ 0x1234)
    × (hi < 256)
    × (lo < 256)
unfolding fixed_header_decode
packet_id_example =
    packet_id_round_trip 0x62 0x1234 2 zero_buffer (typed 6 0 0 0) refl (omega arith) (omega arith)
      refl
