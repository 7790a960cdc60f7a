-- ===== src/Subscribe/Tests.antt =====
-- Runs of the encoders of SUBSCRIBE.
use lightmqtt.Prelude.{
  ℕ, zero, suc, ap, sym, ◌+◌, ◌*◌, ◌≡◌, refl, arith, true, none, some, List, [], ◌∷◌, length,
  replicate,
}
use lightmqtt.Prelude.Int.{pos}
use lightmqtt.Header.{FixedHeader, fresh, feed, done}
use lightmqtt.Encode.{EncodeBuffer, zero_buffer}
use lightmqtt.Encode.Pieces.{part}
use lightmqtt.Strings.{LmqttString}
use lightmqtt.Strings.Encoding.{IsMemory}
use lightmqtt.Core.{io_would_block}
use lightmqtt.Subscribe.{
  Subscription, Subscribe, subscribe_validate, subscribe_build_header_subscribe,
}
use lightmqtt.Subscribe.Header.{Topics, filters, build_header, subscribe_headers}
use lightmqtt.Subscribe.Oversized.{IsLegal, wire_length, oversized_subscribe_faults}

abbrev memory : List ℕ → LmqttString Unit
memory bs = record {
  addr = 1;
  len = pos (length bs);
  buf = some bs;
  read = none;
  write = none;
  pos = 0;
}

abbrev memory-IsMemory : (bs : List ℕ) → IsMemory (memory bs) bs
memory-IsMemory bs = record { len_eq = refl; buf_eq = refl; no_read = refl }

abbrev subscription : List ℕ → Subscription Unit
subscription topic = record { requested_qos = 1; topic = memory topic; return_code = 0 }

abbrev two_topics : List (List ℕ)
two_topics = (b'a' ∷ []) ∷ (b'b' ∷ b'c' ∷ []) ∷ []

abbrev two_subscriptions : List (Subscription Unit)
two_subscriptions = subscription (b'a' ∷ []) ∷ subscription (b'b' ∷ b'c' ∷ []) ∷ []

abbrev packet : Subscribe Unit
packet = record { count = pos 2; subscriptions = some two_subscriptions; current = none }

two_subscriptions-Topics : Topics two_subscriptions two_topics
two_subscriptions-Topics = (
  b'a' ∷ [],
  (b'b' ∷ b'c' ∷ []) ∷ [],
  refl,
  memory-IsMemory (b'a' ∷ []),
  (b'b' ∷ b'c' ∷ [], [], refl, memory-IsMemory (b'b' ∷ b'c' ∷ []), refl),
)

subscribe_headers_example :
    (x : EncodeBuffer) × (hi : ℕ) × (lo : ℕ) × (h : FixedHeader) × (build_header true 0x102 packet
        zero_buffer
      ≡ some x)
    × (feed fresh (part x) ≡ done h (hi ∷ lo ∷ []))
    × (h.type ≡ 8)
    × (h.remaining_length ≡ 2 + length (filters true two_subscriptions two_topics))
    × (256 * hi + lo ≡ 0x102)
subscribe_headers_example =
    subscribe_headers true packet two_subscriptions two_topics 0x102 zero_buffer refl refl
      two_subscriptions-Topics (omega arith) (omega arith) refl

-- A topic of 65535 bytes that a callback gives.
abbrev long : Subscription Unit
long = record {
  requested_qos = 0;
  topic = record {
    addr = 1;
    len = pos 0xffff;
    buf = none;
    read =
        some (λ n w. record {
          result = io_would_block;
          bytes = [];
          count = 0;
          os_error = 0;
          world = w;
        });
    write = none;
    pos = 0;
  };
  return_code = 0;
}

abbrev many : Subscribe Unit
many = record { count = pos 4096; subscriptions = some (replicate 4096 long); current = none }

many-IsLegal : (n : ℕ) → IsLegal (replicate n long)
many-IsLegal zero = omega arith
many-IsLegal (suc n) = (refl, omega arith, omega arith, omega arith, many-IsLegal n)

many_bytes : (n : ℕ) → wire_length (replicate n long) ≡ n * 0x10002
many_bytes zero = refl
many_bytes (suc n) = omega (arith, many_bytes n)

many_length : (n : ℕ) → length (replicate n long) ≡ n
many_length zero = refl
many_length (suc n) = ap suc (many_length n)

oversized_subscribe_faults_example :
    (subscribe_validate many ≡ some true)
    × (subscribe_build_header_subscribe 1 many zero_buffer ≡ none)
oversized_subscribe_faults_example =
    oversized_subscribe_faults many (replicate 4096 long) 1 zero_buffer refl
      (sym (ap pos (many_length 4096))) (many-IsLegal 4096) (omega (arith, many_bytes 4096))
