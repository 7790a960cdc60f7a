-- ===== src/Subscribe/Header.antt =====
-- The headers of SUBSCRIBE and UNSUBSCRIBE, read by the decoder of the same library.
use lightmqtt.Prelude.{
  ℕ, ◌+◌, ◌*◌, ◌≤◌, ◌<◌, ◌≡◌, ◌^◌, ◌%◌, refl, arith, ap, ◌∙◌, Bool, true, false,
}
use lightmqtt.Prelude.{Option, some, List, [], ◌∷◌, ◌++◌, length, length-append, if◌then◌else◌}
use lightmqtt.Prelude.Int.{pos, ◌+ℤ◌, +ℤ_pos}
use lightmqtt.Header.{FixedHeader, fresh, feed, done, fixed_header_decode}
use lightmqtt.Header.Types.{typed}
use lightmqtt.Header.RoundTrip.{StartsWith}
use lightmqtt.Encode.{EncodeBuffer, two_bytes, encode_buffer_encode_packet_id}
use lightmqtt.Encode.Pieces.{part}
use lightmqtt.Encode.PacketId.{packet_id_round_trip}
use lightmqtt.Strings.Encoding.{IsMemory}
use lightmqtt.Subscribe.{
  Subscription, Subscribe, subscribe_length_loop, subscribe_calc_remaining_length,
  subscribe_build_header_subscribe, subscribe_build_header_unsubscribe,
}

-- The topics of the subscriptions stand in memory, and hold these texts.
abbrev pub Topics : {W : Type 0} → List (Subscription W) → List (List ℕ) → Type 0
Topics [] ts = ts ≡ []
Topics (sub ∷ subs) ts =
    (t : List ℕ) × (us : List (List ℕ)) × (ts ≡ t ∷ us) × IsMemory sub.topic t × Topics subs us

-- What `subscribe_encode_topic` and `subscribe_encode_qos` send for the subscriptions; UNSUBSCRIBE
-- is without the bytes of the QoS.
abbrev pub filters : {W : Type 0} → Bool → List (Subscription W) → List (List ℕ) → List ℕ
filters include_qos [] ts = []
filters include_qos (sub ∷ subs) [] = []
filters include_qos (sub ∷ subs) (t ∷ ts) =
    (two_bytes (length t) ++ t)
    ++ ((if include_qos then sub.requested_qos % 256 ∷ [] else []) ++ filters include_qos subs ts)

abbrev pub build_header : {W : Type 0} → Bool → ℕ → Subscribe W → EncodeBuffer → Option EncodeBuffer
build_header true = subscribe_build_header_subscribe
build_header false = subscribe_build_header_unsubscribe

length-filters :
    {W : Type 0} (q : Bool) (sub : Subscription W) (subs : List (Subscription W)) (t : List ℕ)
    (ts : List (List ℕ))
    → length (filters q (sub ∷ subs) (t ∷ ts))
      ≡ length t + 2 + (if q then 1 else 0) + length (filters q subs ts)
length-filters true sub subs t ts =
    omega (arith, length-append t (sub.requested_qos % 256 ∷ filters true subs ts))
length-filters false sub subs t ts = omega (arith, length-append t (filters false subs ts))

one_length :
    (q : Bool) (n : ℕ)
    → pos n +ℤ pos 2 +ℤ (if q then pos 1 else pos 0) ≡ pos (n + 2 + (if q then 1 else 0))
one_length true n = rw (+ℤ_pos n 2) (+ℤ_pos (n + 2) 1)
one_length false n = rw (+ℤ_pos n 2) (+ℤ_pos (n + 2) 0)

length_loop :
    {W : Type 0} (q : Bool) (subs : List (Subscription W)) (ts : List (List ℕ)) (acc : ℕ)
    → Topics subs ts
    → subscribe_length_loop (length subs) subs q (pos acc)
      ≡ some (pos (acc + length (filters q subs ts)))
unfolding subscribe_length_loop
length_loop q [] ts acc m = ap (λ (n : ℕ). some (pos n)) (omega arith)
length_loop q (sub ∷ subs) ts acc (t, us, e, in_t, m) =
    let n : ℕ = length t + 2 + (if q then 1 else 0) in
    let step : pos acc +ℤ (sub.topic.len +ℤ pos 2 +ℤ (if q then pos 1 else pos 0)) ≡ pos (acc + n) =
      ap (λ k. pos acc +ℤ (k +ℤ pos 2 +ℤ (if q then pos 1 else pos 0))) in_t.len_eq
      ∙ ap (λ k. pos acc +ℤ k) (one_length q (length t))
      ∙ +ℤ_pos acc n in
    let total : acc + n + length (filters q subs us)
        ≡ acc + length (filters q (sub ∷ subs) (t ∷ us)) =
      omega (arith, length-filters q sub subs t us) in
    rw e (
      ap (λ k. subscribe_length_loop (length subs) subs q k) step
      ∙ length_loop q subs us (acc + n) m
      ∙ ap (λ (k : ℕ). some (pos k)) total)

calc_length :
    {W : Type 0} (q : Bool) (p : Subscribe W) (subs : List (Subscription W)) (ts : List (List ℕ))
    → p.subscriptions ≡ some subs
    → p.count ≡ pos (length subs)
    → Topics subs ts
    → subscribe_calc_remaining_length p q ≡ some (pos (2 + length (filters q subs ts)))
unfolding subscribe_calc_remaining_length
calc_length q p subs ts has count m = rw (has, count) (length_loop q subs ts 2 m)

header_starts :
    (q : Bool) → StartsWith (if q then 0x82 else 0xa2) (typed (if q then 8 else 10) 0 0 0)
unfolding fixed_header_decode
header_starts true = refl
header_starts false = refl

build_header_eq :
    {W : Type 0} (q : Bool) (id len : ℕ) (p : Subscribe W) (b : EncodeBuffer)
    → subscribe_calc_remaining_length p q ≡ some (pos len)
    → build_header q id p b
      ≡ encode_buffer_encode_packet_id (if q then 0x82 else 0xa2) (pos len) id b
unfolding subscribe_build_header_subscribe subscribe_build_header_unsubscribe
build_header_eq true id len p b e = rw e
build_header_eq false id len p b e = rw e

-- With an array of `count` subscriptions whose topics are in memory, and a remaining length that the
-- protocol allows, the header of SUBSCRIBE (`true`) and of UNSUBSCRIBE (`false`) is built. It reads
-- back as a packet of that type whose remaining length is the number of the two bytes of the packet
-- id, which follow the fixed header, and of the bytes of all topic filters.
pub subscribe_headers :
    {W : Type 0} (q : Bool) (p : Subscribe W) (subs : List (Subscription W)) (ts : List (List ℕ))
    (id : ℕ) (b : EncodeBuffer)
    → p.subscriptions ≡ some subs
    → p.count ≡ pos (length subs)
    → Topics subs ts
    → id < 2 ^ 16
    → 2 + length (filters q subs ts) ≤ 0x0fffffff
    → length b.buf ≡ 16
    → (x : EncodeBuffer) × (hi : ℕ) × (lo : ℕ) × (h : FixedHeader) × (build_header q id p b
        ≡ some x)
      × (feed fresh (part x) ≡ done h (hi ∷ lo ∷ []))
      × (h.type ≡ (if q then 8 else 10))
      × (h.remaining_length ≡ 2 + length (filters q subs ts))
      × (256 * hi + lo ≡ id)
subscribe_headers q p subs ts id b has count m narrow small room =
    let type : ℕ = if q then 0x82 else 0xa2 in
    let len : ℕ = 2 + length (filters q subs ts) in
    let (x, hi, lo, h, e, f, l, (t, _, _, _), n, _, _) =
      packet_id_round_trip type id len b (typed (if q then 8 else 10) 0 0 0) (header_starts q) small
        narrow room in
    (
      x,
      hi,
      lo,
      h,
      build_header_eq q id len p b (calc_length q p subs ts has count m) ∙ e,
      f,
      t,
      l,
      n,
    )
