-- ===== src/Tx/PublishParts.antt =====
-- The parts of a PUBLISH, each sent by one call.
use lightmqtt.Prelude.{ℕ, ◌+◌, ◌≤◌, ◌<◌, ◌≡◌, refl, ap, ◌∙◌, arith, true, false}
use lightmqtt.Prelude.{Option, some, List, [], ◌∷◌, ◌++◌, length}
use lightmqtt.Prelude.{take-write_at}
use lightmqtt.Encode.{finished, EncodeBuffer, zero_buffer, Encoded, two_bytes, built}
use lightmqtt.Encode.Pieces.{part, encode_whole}
use lightmqtt.Strings.{LmqttString, StringWorld}
use lightmqtt.Strings.Encoding.{IsMemory}
use lightmqtt.Strings.Whole.{text, IsWhole, string_encode-IsWhole}
use lightmqtt.Publish.{
  Publish, publish_build_fixed_header, publish_encode_fixed_header, publish_encode_topic,
  publish_encode_packet_id, publish_encode_payload, publish_build_packet_id,
}

-- An encoder has sent `bytes`, and left `b'` and `q`.
abbrev pub after : {W : Type 0} → List ℕ → EncodeBuffer → Publish W → W → Encoded (Publish W × W)
after bytes b' q w = record { result = finished; written = bytes; buffer = b'; rest = (q, w) }

abbrev pub moved : {W : Type 0} → LmqttString W → ℕ → LmqttString W
moved str n = record str { pos = n }

pub header_sends :
    {W : Type 0} (p : Publish W) (b x : EncodeBuffer) (room : ℕ) (w : W)
    → b.encoded ≡ false
    → publish_build_fixed_header p b ≡ some x
    → 0 < x.buf_len
    → x.buf_len ≤ room
    → publish_encode_fixed_header p b 0 room w ≡ some (after (part x) zero_buffer p w)
unfolding publish_encode_fixed_header
header_sends p b x room w new e some_bytes fits =
    encode_whole (publish_build_fixed_header p) b x (p, w) room new e some_bytes fits

pub packet_id_sends :
    {W : Type 0} (id : ℕ) (p : Publish W) (b : EncodeBuffer) (room : ℕ) (w : W)
    → b.encoded ≡ false
    → 2 ≤ length b.buf
    → 2 ≤ room
    → publish_encode_packet_id id p b 0 room w ≡ some (after (two_bytes id) zero_buffer p w)
unfolding publish_encode_packet_id
packet_id_sends id p b room w new space fits =
    encode_whole (publish_build_packet_id id p) b (built b (two_bytes id)) (p, w) room new
      (unfold publish_build_packet_id in refl) (omega arith) fits
    ∙ ap (λ bytes. some (after bytes zero_buffer p w)) (take-write_at b.buf (two_bytes id) space)

-- A string part has been sent, and the buffer is as empty as before.
abbrev pub Sends :
    {W : Type 0}
    → Option (Encoded (Publish W × W))
    → List ℕ
    → EncodeBuffer
    → (ℕ → Publish W)
    → W
    → Type 0
Sends {W} o bytes b q w =
    (b' : EncodeBuffer) × (n : ℕ) × (o ≡ some (after bytes b' (q n) w))
    × (b'.encoded ≡ b.encoded)
    × (b'.buf ≡ b.buf)

pub whole_eq :
    {W : Type 0} (str : LmqttString W) (b : EncodeBuffer) (w : W) (bytes : List ℕ)
    (e : Encoded (StringWorld W))
    → IsWhole str b w bytes e
    → (n : ℕ) × (e ≡ record {
      result = finished;
      written = bytes;
      buffer = e.buffer;
      rest = record { str = moved str n; world = w };
    })
whole_eq str b w bytes e h = (h.moved.0, ground (arith, h.ends, h.all, h.same_world, h.moved.1))

pub topic-Sends :
    {W : Type 0} (p : Publish W) (topic : List ℕ) (b : EncodeBuffer) (room : ℕ) (w : W)
    → IsMemory p.topic topic
    → 2 + length topic ≤ room
    → Sends
        (publish_encode_topic p b 0 room w)
        (two_bytes (length topic) ++ topic)
        b
        (λ n. record p { topic = moved p.topic n })
        w
unfolding publish_encode_topic
topic-Sends p topic b room w m fits =
    let same : text true true topic ≡ two_bytes (length topic) ++ topic = ground arith in
    let (e, eq, h) =
      string_encode-IsWhole p.topic topic w true true room b m refl (ground (arith, same)) in
    let (n, whole) = whole_eq p.topic b w (text true true topic) e h in
    (e.buffer, n, ground (arith, eq, whole, same), h.kept.0, h.kept.1)

pub payload-Sends :
    {W : Type 0} (p : Publish W) (payload : List ℕ) (b : EncodeBuffer) (room : ℕ) (w : W)
    → IsMemory p.payload payload
    → length payload ≤ room
    → Sends
        (publish_encode_payload p b 0 room w)
        payload
        b
        (λ n. record p { payload = moved p.payload n })
        w
unfolding publish_encode_payload
payload-Sends p payload b room w m fits =
    let same : text false false payload ≡ payload = optional payload in
    let (e, eq, h) =
      string_encode-IsWhole p.payload payload w false false room b m refl (ground (arith, same)) in
    let (n, whole) = whole_eq p.payload b w (text false false payload) e h in
    (e.buffer, n, ground (arith, eq, whole, same), h.kept.0, h.kept.1)
  where
    optional : (bs : List ℕ) → text false false bs ≡ bs
    optional [] = refl
    optional (x ∷ bs) = ground arith
