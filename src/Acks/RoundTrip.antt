-- ===== src/Acks/RoundTrip.antt =====
-- The header-only packets, read by the decoder of the same library.
use lightmqtt.Prelude.{ℕ, ◌+◌, ◌*◌, ◌<◌, ◌≡◌, ◌^◌, refl, arith, ap, ◌∙◌, some, [], ◌∷◌, length}
use lightmqtt.Prelude.{take-write_at}
use lightmqtt.Prelude.Int.{pos}
use lightmqtt.Header.{FixedHeader, fresh, feed, done, fixed_header_decode}
use lightmqtt.Header.Types.{typed}
use lightmqtt.Header.RoundTrip.{StartsWith}
use lightmqtt.Encode.{EncodeBuffer, Builder, encode_buffer_encode_packet_id, built}
use lightmqtt.Encode.Pieces.{part}
use lightmqtt.Encode.PacketId.{packet_id_round_trip}
use lightmqtt.Acks.{
  puback_build, pubrec_build, pubrel_build, pubcomp_build, pingreq_build, disconnect_build,
}

-- The builder makes a packet of that type whose remaining length is 2 and that holds the id.
abbrev pub Carries : Builder → EncodeBuffer → ℕ → ℕ → Type 0
Carries builder b type id =
    (x : EncodeBuffer) × (hi : ℕ) × (lo : ℕ) × (h : FixedHeader) × (builder b ≡ some x)
    × (feed fresh (part x) ≡ done h (hi ∷ lo ∷ []))
    × (h.type ≡ type)
    × (h.remaining_length ≡ 2)
    × (256 * hi + lo ≡ id)

-- The builder makes a packet of that type without more bytes.
abbrev pub Bare : Builder → EncodeBuffer → ℕ → Type 0
Bare builder b type =
    (x : EncodeBuffer) × (h : FixedHeader) × (builder b ≡ some x)
    × (feed fresh (part x) ≡ done h [])
    × (h.type ≡ type)
    × (h.remaining_length ≡ 0)

carries :
    (byte type id : ℕ) (b : EncodeBuffer)
    → StartsWith byte (typed type 0 0 0)
    → id < 2 ^ 16
    → length b.buf ≡ 16
    → Carries (encode_buffer_encode_packet_id byte (pos 2) id) b type id
carries byte type id b start narrow room =
    let (x, hi, lo, h, e, f, l, (t, _, _, _), n, _, _) =
      packet_id_round_trip byte id 2 b (typed type 0 0 0) start (omega arith) narrow room in
    (x, hi, lo, h, e, f, t, l, n)

bare :
    (byte type : ℕ) (b : EncodeBuffer) (h : FixedHeader)
    → feed fresh (byte ∷ 0 ∷ []) ≡ done h []
    → h.type ≡ type
    → h.remaining_length ≡ 0
    → length b.buf ≡ 16
    → Bare (λ c. some (built c (byte ∷ 0 ∷ []))) b type
bare byte type b h f t l room = (
  built b (byte ∷ 0 ∷ []),
  h,
  refl,
  ap (λ xs. feed fresh xs) (take-write_at b.buf (byte ∷ 0 ∷ []) (omega arith)) ∙ f,
  t,
  l,
)

-- Each of the four acknowledgements is built, and reads back as the type that the protocol gives it,
-- with the packet id of the stored value; PINGREQ and DISCONNECT read back as their types, with
-- nothing behind.
pub acks_round_trip :
    (id : ℕ) (b : EncodeBuffer)
    → id < 2 ^ 16
    → length b.buf ≡ 16
    → Carries (puback_build id) b 4 id
      × Carries (pubrec_build id) b 5 id
      × Carries (pubrel_build id) b 6 id
      × Carries (pubcomp_build id) b 7 id
      × Bare pingreq_build b 12
      × Bare disconnect_build b 14
unfolding puback_build pubrec_build pubrel_build pubcomp_build pingreq_build disconnect_build
    fixed_header_decode feed
acks_round_trip id b narrow room = (
  carries 0x40 4 id b refl narrow room,
  carries 0x50 5 id b refl narrow room,
  carries 0x62 6 id b refl narrow room,
  carries 0x70 7 id b refl narrow room,
  bare 0xc0 12 b _ refl refl refl room,
  bare 0xe0 14 b _ refl refl refl room,
)
