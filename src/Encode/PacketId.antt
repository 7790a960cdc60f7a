-- ===== src/Encode/PacketId.antt =====
-- `encode_buffer_encode_packet_id`: the header that carries a packet id.
use lightmqtt.Prelude.{ℕ, ◌+◌, ◌*◌, ◌/◌, ◌%◌, ◌^◌, ◌≤◌, ◌<◌, ◌≡◌}
use lightmqtt.Prelude.{arith, some, List, [], ◌∷◌, ◌++◌}
use lightmqtt.Prelude.{length, length-append, take-write_at}
use lightmqtt.Prelude.Int.{pos}
use lightmqtt.Header.{FixedHeader, fresh, done, feed}
use lightmqtt.Header.RoundTrip.{StartsWith, SameType, decode-encode, encode_total}
use lightmqtt.Encode.{EncodeBuffer, two_bytes, built, encode_buffer_encode_packet_id}
use lightmqtt.Encode.Pieces.{part}

-- What the builder leaves in the buffer.
built-part :
    (b : EncodeBuffer) (bytes : List ℕ) → length bytes ≤ length b.buf → part (built b bytes) ≡ bytes
built-part b bytes h = take-write_at b.buf bytes h

-- Every header with a packet id is built, for a remaining length that the protocol allows, and
-- reads back: `fixed_header_decode` makes it whole with that type byte and length, and leaves the
-- two bytes of the packet id, the high one first.
pub packet_id_round_trip :
    (type id len : ℕ) (b : EncodeBuffer) (h : FixedHeader)
    → StartsWith type h
    → len ≤ 0x0fffffff
    → id < 2 ^ 16
    → length b.buf ≡ 16
    → (p : EncodeBuffer) × (hi : ℕ) × (lo : ℕ) × (h' : FixedHeader)
      × (encode_buffer_encode_packet_id type (pos len) id b ≡ some p)
      × (feed fresh (part p) ≡ done h' (hi ∷ lo ∷ []))
      × (h'.remaining_length ≡ len)
      × SameType h' h
      × (256 * hi + lo ≡ id)
      × (hi < 256)
      × (lo < 256)
unfolding encode_buffer_encode_packet_id
packet_id_round_trip type id len b h start small narrow room =
    let (bs, e, n, _) = encode_total len small in
    let bytes : List ℕ = type ∷ (bs ++ two_bytes id) in
    let size : length bytes ≤ length b.buf = omega (arith, length-append bs (two_bytes id)) in
    let (h', f, l, t, _) = decode-encode type len h bs (two_bytes id) start e in
    (
      built b bytes,
      id / 256 % 256,
      id / 1 % 256,
      h',
      ground (arith, e),
      rw (built-part b bytes size) f,
      l,
      t,
      omega arith,
      omega arith,
      omega arith,
    )
