-- ===== src/Subscribe/Oversized.antt =====
-- SUBSCRIBE packets that are longer than the protocol allows.
use lightmqtt.Prelude.{ℕ, ◌+◌, ◌≤◌, ◌<◌, ◌≡◌, refl, arith, true, some, none, List, [], ◌∷◌}
use lightmqtt.Prelude.{length, ap}
use lightmqtt.Prelude.Int.{pos, +ℤ_pos}
use lightmqtt.Header.{encode_remaining_length}
use lightmqtt.Encode.{EncodeBuffer, encode_buffer_encode_packet_id}
use lightmqtt.Strings.{nat_of}
use lightmqtt.Subscribe.{
  Subscription, Subscribe, subscribe_length_loop, subscribe_calc_remaining_length,
  subscribe_build_header_subscribe, subscribe_validate_loop, subscribe_validate,
}

-- Subscriptions to topics of 1 to 65535 bytes, with a QoS of 0 to 2.
abbrev pub IsLegal : {W : Type 0} → List (Subscription W) → Type 0
IsLegal [] = 0 ≤ 0
IsLegal (sub ∷ subs) =
    (sub.topic.len ≡ pos (nat_of sub.topic.len))
    × (0 < nat_of sub.topic.len)
    × (nat_of sub.topic.len ≤ 0xffff)
    × (sub.requested_qos ≤ 2)
    × IsLegal subs

-- Their bytes in the packet: each has a length of two bytes, its topic and a QoS.
abbrev pub wire_length : {W : Type 0} → List (Subscription W) → ℕ
wire_length [] = 0
wire_length (sub ∷ subs) = 2 + nat_of sub.topic.len + 1 + wire_length subs

length_loop :
    {W : Type 0} (subs : List (Subscription W)) (acc : ℕ)
    → IsLegal subs
    → subscribe_length_loop (length subs) subs true (pos acc) ≡ some (pos (acc + wire_length subs))
unfolding subscribe_length_loop
length_loop [] acc _ = ap (λ (n : ℕ). some (pos n)) (omega arith)
length_loop (sub ∷ subs) acc (whole, _, _, _, legal) =
    let t : ℕ = nat_of sub.topic.len in
    let next : acc + (2 + t + 1 + wire_length subs) ≡ acc + (t + 2 + 1) + wire_length subs =
      omega arith in
    ground (
      arith,
      whole,
      next,
      +ℤ_pos t 2,
      +ℤ_pos (t + 2) 1,
      +ℤ_pos acc (t + 2 + 1),
      length_loop subs (acc + (t + 2 + 1)) legal,
    )

validate_loop :
    {W : Type 0} (subs : List (Subscription W))
    → IsLegal subs
    → subscribe_validate_loop (length subs) subs ≡ some true
unfolding subscribe_validate_loop
validate_loop [] _ = refl
validate_loop (sub ∷ subs) (whole, some_byte, small, q, legal) =
    ground (arith, whole, validate_loop subs legal)

-- A SUBSCRIBE whose subscriptions all have a topic of 1 to 65535 bytes and a QoS of 0 to 2, and make
-- its remaining length greater than the 268435455 that the protocol allows, passes `lmqtt_subscribe_validate`, which has no bound on the sum, and then the assertion of
-- `encode_remaining_length` fails when its header is built.
pub oversized_subscribe_faults :
    {W : Type 0} (p : Subscribe W) (subs : List (Subscription W)) (id : ℕ) (b : EncodeBuffer)
    → p.subscriptions ≡ some subs
    → p.count ≡ pos (length subs)
    → IsLegal subs
    → 0xfffffff < 2 + wire_length subs
    → (subscribe_validate p ≡ some true) × (subscribe_build_header_subscribe id p b ≡ none)
unfolding subscribe_validate subscribe_build_header_subscribe subscribe_calc_remaining_length
    encode_buffer_encode_packet_id encode_remaining_length
oversized_subscribe_faults p [] id b array counted legal long = absurd (omega (arith, long))
oversized_subscribe_faults p (sub ∷ subs) id b array counted legal long = (
  ground (arith, array, counted, validate_loop (sub ∷ subs) legal),
  ground (arith, array, counted, length_loop (sub ∷ subs) 2 legal, long),
)
