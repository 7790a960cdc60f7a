-- ===== src/Publish/Header.antt =====
-- The fixed header of PUBLISH, read by the decoder of the same library.
use lightmqtt.Prelude.{ℕ, zero, suc, ◌+◌, ◌≤◌, ◌<◌, ◌≡◌, refl, sym, ap, ◌∙◌, arith, Bool}
use lightmqtt.Prelude.{true, false, some, List, [], ◌∷◌, length, append-nil}
use lightmqtt.Prelude.{ltb, ◌==◌, if◌then◌else◌, take-write_at, ◌⊎◌, inl, inr}
use lightmqtt.Prelude.Int.{pos, +ℤ_pos}
use lightmqtt.Core.{decode_fixed_header_invalid_flags}
use lightmqtt.Header.{
  FixedHeader, fresh, feed, done, bad, fixed_header_decode, encode_remaining_length,
}
use lightmqtt.Header.Types.{typed}
use lightmqtt.Header.RoundTrip.{StartsWith, decode-encode, encode_total}
use lightmqtt.Encode.{EncodeBuffer, built}
use lightmqtt.Encode.Pieces.{part}
use lightmqtt.Strings.Encoding.{IsMemory}
use lightmqtt.Publish.{
  Publish, publish_type_byte, publish_calc_remaining_length, publish_validate,
  publish_build_fixed_header,
}

abbrev pub flag : Bool → ℕ
flag b = if b then 1 else 0

type_starts :
    (retain : Bool) (qos : ℕ) (again : Bool)
    → qos ≤ 2
    → (0 < qos) ⊎ (again ≡ false)
    → StartsWith (publish_type_byte retain qos again) (typed 3 (flag again) qos (flag retain))
unfolding publish_type_byte fixed_header_decode
type_starts false zero false h k = refl
type_starts true zero false h k = refl
type_starts retain zero true h (inl k) = absurd (omega arith)
type_starts retain zero true h (inr k) = cc
type_starts false (suc zero) false h k = refl
type_starts false (suc zero) true h k = refl
type_starts true (suc zero) false h k = refl
type_starts true (suc zero) true h k = refl
type_starts false (suc (suc zero)) false h k = refl
type_starts false (suc (suc zero)) true h k = refl
type_starts true (suc (suc zero)) false h k = refl
type_starts true (suc (suc zero)) true h k = refl
type_starts retain (suc (suc (suc q))) again h k = absurd (omega arith)

again_refused :
    (retain : Bool) (qos : ℕ) (again : Bool) (bs : List ℕ)
    → qos ≡ 0
    → again ≡ true
    → feed fresh (publish_type_byte retain qos again ∷ bs)
      ≡ bad (some decode_fixed_header_invalid_flags)
unfolding publish_type_byte fixed_header_decode feed
again_refused false zero true bs e k = refl
again_refused true zero true bs e k = refl
again_refused retain zero false bs e k = cc
again_refused retain (suc q) again bs e k = absurd (omega arith)

module _ {W : Type 0} (p : Publish W) (topic payload : List ℕ) (in_topic : IsMemory p.topic topic)
    (in_payload : IsMemory p.payload payload) where
  -- The bytes behind the fixed header: the topic with its length, the packet id, the payload.
  abbrev pub size : ℕ
  size = 2 + length topic + (if p.qos == 0 then 0 else 2) + length payload

  calc_length : publish_calc_remaining_length p ≡ pos size
  unfolding publish_calc_remaining_length
  calc_length = ground (
    arith,
    in_topic.len_eq,
    in_payload.len_eq,
    +ℤ_pos 2 (length topic),
    +ℤ_pos (2 + length topic) 0,
    +ℤ_pos (2 + length topic) 2,
    +ℤ_pos (2 + length topic + 0) (length payload),
    +ℤ_pos (2 + length topic + 2) (length payload),
  )

  valid_bounds : publish_validate p ≡ true → (size ≤ 0x0fffffff) × (p.qos ≤ 2) × (0 < length topic)
  unfolding publish_validate
  valid_bounds v = ground (arith, calc_length, in_topic.len_eq)

  build_fixed_header :
      (b : EncodeBuffer) (bs : List ℕ)
      → publish_validate p ≡ true
      → encode_remaining_length (pos size) ≡ some bs
      → publish_build_fixed_header p b
        ≡ some (built b (publish_type_byte p.retain p.qos (ltb 0 p.encode_count) ∷ bs))
  unfolding publish_build_fixed_header
  build_fixed_header b bs v e = rw (v, calc_length, e)

  -- The header of a valid packet has two to five bytes.
  pub header_built :
      (b x : EncodeBuffer)
      → publish_validate p ≡ true
      → length b.buf ≡ 16
      → publish_build_fixed_header p b ≡ some x
      → (0 < x.buf_len) × (x.buf_len ≤ 5) × (length (part x) ≡ x.buf_len)
  header_built b x v room e =
      let (small, _, _) = valid_bounds v in
      let (bs, enc, n, _) = encode_total size small in
      let type : ℕ = publish_type_byte p.retain p.qos (ltb 0 p.encode_count) in
      let same : built b (type ∷ bs) ≡ x = ground (arith, build_fixed_header b bs v enc, e) in
      let whole : part (built b (type ∷ bs)) ≡ type ∷ bs =
        take-write_at b.buf (type ∷ bs) (omega arith) in
      rw (← same) (omega arith, omega arith, ap length whole)

  -- For a valid packet with its strings in memory the fixed header is built. Unless it is a message
  -- of QoS 0 that was sent before, the header reads back as a PUBLISH with its QoS, its retain flag,
  -- dup set exactly if it was sent before, and the number of the bytes that follow.
  pub publish_header :
      (b : EncodeBuffer)
      → publish_validate p ≡ true
      → (0 < p.qos) ⊎ (p.encode_count ≡ 0)
      → length b.buf ≡ 16
      → (x : EncodeBuffer) × (h : FixedHeader) × (publish_build_fixed_header p b ≡ some x)
        × (feed fresh (part x) ≡ done h [])
        × (h.type ≡ 3)
        × (h.qos ≡ p.qos)
        × (h.retain ≡ flag p.retain)
        × (h.dup ≡ flag (ltb 0 p.encode_count))
        × (h.remaining_length ≡ size)
  publish_header b v first room =
      let (small, q, _) = valid_bounds v in
      let (bs, e, n, _) = encode_total size small in
      let type : ℕ = publish_type_byte p.retain p.qos (ltb 0 p.encode_count) in
      let once : (0 < p.qos) ⊎ (ltb 0 p.encode_count ≡ false) = ground arith in
      let (h, f, l, (t, d, q', r), _) =
        decode-encode type size (typed 3 (flag (ltb 0 p.encode_count)) p.qos (flag p.retain)) bs []
          (type_starts p.retain p.qos (ltb 0 p.encode_count) q once) e in
      (
        built b (type ∷ bs),
        h,
        build_fixed_header b bs v e,
        ap (λ xs. feed fresh xs)
              (take-write_at b.buf (type ∷ bs) (omega arith)
                ∙ ap (λ xs. type ∷ xs) (sym (append-nil bs)))
            ∙ f,
        t,
        q',
        r,
        d,
        l,
      )

  -- A valid packet of QoS 0 that was sent before is built with dup set, and the decoder refuses it
  -- for its flags.
  pub publish_again_refused :
      (b : EncodeBuffer)
      → publish_validate p ≡ true
      → p.qos ≡ 0
      → 0 < p.encode_count
      → length b.buf ≡ 16
      → (x : EncodeBuffer) × (publish_build_fixed_header p b ≡ some x)
        × (feed fresh (part x) ≡ bad (some decode_fixed_header_invalid_flags))
  publish_again_refused b v q again room =
      let (small, _, _) = valid_bounds v in
      let (bs, e, n, _) = encode_total size small in
      let type : ℕ = publish_type_byte p.retain p.qos (ltb 0 p.encode_count) in
      (
        built b (type ∷ bs),
        build_fixed_header b bs v e,
        ap (λ xs. feed fresh xs) (take-write_at b.buf (type ∷ bs) (omega arith))
            ∙ again_refused p.retain p.qos (ltb 0 p.encode_count) bs q (ground arith),
      )
