-- ===== src/Subscribe.antt =====
-- src/lmqtt_packet.c, `lmqtt_subscribe_t`: the SUBSCRIBE and UNSUBSCRIBE packets. `none` is a fault:
-- an assertion fails, or the array of subscriptions ends before `count`.
pub mod Header
pub mod Oversized
mod Tests
use lightmqtt.Prelude.{
  ℕ, zero, suc, ◌+◌, ◌*◌, ◌%◌, Bool, true, false, not, ◌&&◌, ◌||◌, Option, none, some,
}
use lightmqtt.Prelude.{List, [], ◌∷◌, get_elem?, set, ◌==◌, if◌then◌else◌}
use lightmqtt.Prelude.Int.{ℤ, pos, ◌+ℤ◌}
use lightmqtt.Encode.{
  EncodeBuffer, Encoded, Builder, ◌>>=◌, built, encode_buffer_encode,
  encode_buffer_encode_packet_id,
}
use lightmqtt.Strings.{LmqttString, string_encode, nat_of}
use lightmqtt.Packet.{
  Encoder, part_encoder, is_empty, string_validate_field_length, is_valid_lmqtt_qos,
}

-- `lmqtt_subscription_t`
pub record Subscription (W : Type 0) : Type 0 where
  pub requested_qos : ℕ
  pub topic : LmqttString W
  pub return_code : ℕ

-- `lmqtt_subscribe_t`; `current` is the number of the element that `internal.current` points to.
pub record Subscribe (W : Type 0) : Type 0 where
  pub count : ℤ
  pub subscriptions : Option (List (Subscription W))
  pub current : Option ℕ

module _ {W : Type 0} where
  abbrev pub array : Subscribe W → List (Subscription W)
  array p = elim p.subscriptions [ none ↦ [] | some subs ↦ subs ]

  -- The loop of `subscribe_calc_remaining_length`, with `n` rounds left.
  unfoldable pub subscribe_length_loop : ℕ → List (Subscription W) → Bool → ℤ → Option ℤ
  subscribe_length_loop zero subs include_qos result = some result
  subscribe_length_loop (suc n) [] include_qos result = none
  subscribe_length_loop (suc n) (sub ∷ subs) include_qos result =
      subscribe_length_loop n subs include_qos
        (result +ℤ (sub.topic.len +ℤ pos 2 +ℤ (if include_qos then pos 1 else pos 0)))

  -- `subscribe_calc_remaining_length`
  unfoldable pub subscribe_calc_remaining_length : Subscribe W → Bool → Option ℤ
  unfolding subscribe_length_loop
  subscribe_calc_remaining_length p include_qos =
      subscribe_length_loop (nat_of p.count) (array p) include_qos (pos 2)

  -- `subscribe_build_header_subscribe`, for the packet id of the stored value
  unfoldable pub subscribe_build_header_subscribe : ℕ → Subscribe W → Builder
  unfolding subscribe_calc_remaining_length
  subscribe_build_header_subscribe packet_id p b = subscribe_calc_remaining_length p true >>= λ len.
      encode_buffer_encode_packet_id 0x82 len packet_id b

  -- `subscribe_encode_header_subscribe`
  unfoldable pub subscribe_encode_header_subscribe : ℕ → Encoder (Subscribe W) W
  unfolding subscribe_build_header_subscribe
  subscribe_encode_header_subscribe packet_id =
      part_encoder (subscribe_build_header_subscribe packet_id)

  -- `subscribe_build_header_unsubscribe`
  unfoldable pub subscribe_build_header_unsubscribe : ℕ → Subscribe W → Builder
  unfolding subscribe_calc_remaining_length
  subscribe_build_header_unsubscribe packet_id p b =
      subscribe_calc_remaining_length p false >>= λ len.
      encode_buffer_encode_packet_id 0xa2 len packet_id b

  -- `subscribe_encode_header_unsubscribe`
  unfoldable pub subscribe_encode_header_unsubscribe : ℕ → Encoder (Subscribe W) W
  unfolding subscribe_build_header_unsubscribe
  subscribe_encode_header_unsubscribe packet_id =
      part_encoder (subscribe_build_header_unsubscribe packet_id)

  -- The element that `internal.current` points to, with its number.
  abbrev pub current_subscription : Subscribe W → Option (ℕ × Subscription W)
  current_subscription p = p.current >>= λ i. get_elem? (array p) i >>= λ sub. some (i, sub)

  -- `subscribe_encode_topic`
  unfoldable pub subscribe_encode_topic : Encoder (Subscribe W) W
  subscribe_encode_topic p b offset room w = current_subscription p >>= λ (i, sub).
      string_encode sub.topic true true offset room b w >>= λ e. some (record {
        result = e.result;
        written = e.written;
        buffer = e.buffer;
        rest = (
          record p { subscriptions = some (set (array p) i (record sub { topic = e.rest.str })) },
          e.rest.world,
        );
      })

  -- `subscribe_build_qos`
  unfoldable pub subscribe_build_qos : Subscribe W → Builder
  subscribe_build_qos p b =
      current_subscription p >>= λ (i, sub). some (built b (sub.requested_qos % 256 ∷ []))

  -- `subscribe_encode_qos`
  unfoldable pub subscribe_encode_qos : Encoder (Subscribe W) W
  unfolding subscribe_build_qos
  subscribe_encode_qos = part_encoder subscribe_build_qos

  -- The loop of `lmqtt_subscribe_validate`.
  unfoldable pub subscribe_validate_loop : ℕ → List (Subscription W) → Option Bool
  unfolding string_validate_field_length
  subscribe_validate_loop zero subs = some true
  subscribe_validate_loop (suc n) [] = none
  subscribe_validate_loop (suc n) (sub ∷ subs) =
      let rest = subscribe_validate_loop n subs in
      if not (string_validate_field_length sub.topic.len)
      then some false
      else if is_empty sub.topic.len || not (is_valid_lmqtt_qos sub.requested_qos)
      then some false
      else rest

  -- `lmqtt_subscribe_validate`
  unfoldable pub subscribe_validate : Subscribe W → Option Bool
  unfolding subscribe_validate_loop
  subscribe_validate p = elim p.subscriptions [
    | none ↦ some false
    | some subs ↦
        if is_empty p.count then some false else subscribe_validate_loop (nat_of p.count) subs
  ]
