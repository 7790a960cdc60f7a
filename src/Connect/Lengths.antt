-- ===== src/Connect/Lengths.antt =====
-- The two headers of CONNECT and the remaining length.
use lightmqtt.Prelude.{ℕ, ◌+◌, ◌≤◌, ◌≡◌, refl, sym, ap, ◌∙◌, arith, true}
use lightmqtt.Prelude.{some, List, [], ◌∷◌, ◌++◌, length, length-append, append-nil}
use lightmqtt.Prelude.{take-write_at}
use lightmqtt.Prelude.Int.{pos, +ℤ_pos}
use lightmqtt.Header.{FixedHeader, fresh, feed, done, fixed_header_decode}
use lightmqtt.Header.Types.{typed}
use lightmqtt.Header.RoundTrip.{StartsWith, decode-encode, encode_total}
use lightmqtt.Encode.{EncodeBuffer, two_bytes, built}
use lightmqtt.Encode.Pieces.{part}
use lightmqtt.Strings.Encoding.{IsMemory}
use lightmqtt.Packet.{string_calc_field_length}
use lightmqtt.Connect.{
  Connect, connect_validate, connect_calc_remaining_length, connect_build_fixed_header,
  connect_build_variable_header,
}

-- A string field that is left out if it is empty.
abbrev pub optional : List ℕ → List ℕ
optional [] = []
optional (x ∷ xs) = two_bytes (length (x ∷ xs)) ++ (x ∷ xs)

field_length :
    (xs : List ℕ) → string_calc_field_length (pos (length xs)) ≡ pos (length (optional xs))
unfolding string_calc_field_length
field_length [] = refl
field_length (x ∷ xs) = ground (arith, +ℤ_pos 2 (length (x ∷ xs)))

field_bound : (xs : List ℕ) → length xs ≤ 0xffff → length (optional xs) ≤ 0x10001
field_bound [] h = omega arith
field_bound (x ∷ xs) h = omega arith

-- The fields stand in memory.
pub record Fields {W : Type 0} (c : Connect W) : Type 0 where
  pub client_id : List ℕ
  pub will_topic : List ℕ
  pub will_message : List ℕ
  pub user_name : List ℕ
  pub password : List ℕ
  pub client_id_in : IsMemory c.client_id client_id
  pub will_topic_in : IsMemory c.will_topic will_topic
  pub will_message_in : IsMemory c.will_message will_message
  pub user_name_in : IsMemory c.user_name user_name
  pub password_in : IsMemory c.password password

module _ {W : Type 0} (c : Connect W) (f : Fields c) where
  -- The payload, as `string_encode` writes it field by field.
  abbrev pub payload : List ℕ
  payload =
      (two_bytes (length f.client_id) ++ f.client_id)
      ++ (optional f.will_topic
          ++ (optional f.will_message ++ (optional f.user_name ++ optional f.password)))

  size : ℕ
  size =
      12
      + length f.client_id
      + length (optional f.will_topic)
      + length (optional f.will_message)
      + length (optional f.user_name)
      + length (optional f.password)

  size-payload : size ≡ 10 + length payload
  unfolding size
  size-payload = omega (
    arith,
    length-append (optional f.will_topic)
        (optional f.will_message ++ (optional f.user_name ++ optional f.password)),
    length-append (optional f.will_message) (optional f.user_name ++ optional f.password),
    length-append (optional f.user_name) (optional f.password),
    length-append f.client_id (
        optional f.will_topic
        ++ (optional f.will_message ++ (optional f.user_name ++ optional f.password))),
  )

  calc_length : connect_calc_remaining_length c ≡ pos size
  unfolding connect_calc_remaining_length size
  calc_length = simp (
    f.client_id_in.len_eq, f.will_topic_in.len_eq, f.will_message_in.len_eq, f.user_name_in.len_eq,
    f.password_in.len_eq, field_length, +ℤ_pos,
  )

  -- What a valid packet's lengths are.
  valid_bounds :
      connect_validate c ≡ true
      → (length f.client_id ≤ 0xffff)
        × (length f.will_topic ≤ 0xffff)
        × (length f.will_message ≤ 0xffff)
        × (length f.user_name ≤ 0xffff)
        × (length f.password ≤ 0xffff)
  unfolding connect_validate
  valid_bounds v = ground (
    arith, f.client_id_in.len_eq, f.will_topic_in.len_eq, f.will_message_in.len_eq,
    f.user_name_in.len_eq, f.password_in.len_eq,
  )

  size_bound : connect_validate c ≡ true → size ≤ 0x0fffffff
  unfolding size
  size_bound v = omega (
    arith,
    valid_bounds v,
    field_bound f.will_topic,
    field_bound f.will_message,
    field_bound f.user_name,
    field_bound f.password,
  )

  -- For a valid packet with its fields in memory both headers are built. The fixed header reads back
  -- as a CONNECT whose remaining length is the number of bytes of the variable header and the
  -- payload.
  pub connect_headers :
      (b : EncodeBuffer)
      → connect_validate c ≡ true
      → length b.buf ≡ 16
      → (p : EncodeBuffer) × (v : EncodeBuffer) × (h : FixedHeader) × (connect_build_fixed_header c
            b
          ≡ some p)
        × (connect_build_variable_header c b ≡ some v)
        × (feed fresh (part p) ≡ done h [])
        × (h.type ≡ 1)
        × (h.remaining_length ≡ length (part v) + length payload)
  connect_headers b v room =
      let (bs, e, n, _) = encode_total size (size_bound v) in
      let (h, f, l, (t, _, _, _), _) = decode-encode 16 size (typed 1 0 0 0) bs [] starts e in
      let variable : (x : EncodeBuffer) × (connect_build_variable_header c b ≡ some x)
          × (length (part x) ≡ 10) =
        unfold connect_build_variable_header in
        (
          _,
          refl,
          ap length
              (take-write_at b.buf (_ ∷ _ ∷ _ ∷ _ ∷ _ ∷ _ ∷ _ ∷ _ ∷ _ ∷ _ ∷ []) (omega arith)),
        ) in
      (
        built b (16 ∷ bs),
        variable.0,
        h,
        unfold connect_build_fixed_header in rw (calc_length, e),
        variable.1,
        ap (λ xs. feed fresh xs)
              (take-write_at b.buf (16 ∷ bs) (omega arith)
                ∙ ap (λ xs. 16 ∷ xs) (sym (append-nil bs)))
            ∙ f,
        t,
        omega (arith, l, size-payload, variable.2),
      )
    where
      starts : StartsWith 16 (typed 1 0 0 0)
      starts = unfold fixed_header_decode in refl
