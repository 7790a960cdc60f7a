-- ===== src/Header/Types.antt =====
-- Which first bytes `fixed_header_decode` takes, checked over all bytes.
use lightmqtt.Prelude.{ℕ, ◌+◌, ◌*◌, ◌/◌, ◌≤◌, ◌≡◌, ◌⊎◌, inl, inr, refl, arith}
use lightmqtt.Prelude.{Bool, true, false, ◌||◌, none, some, List, [], ◌∷◌, occurs, ◌==◌, leb}
use lightmqtt.Prelude.{if◌then◌else◌}
use lightmqtt.Prelude.Bytes.{IsByte, tables_agree, agree_below}
use lightmqtt.Core.{Error, decode_fixed_header_invalid_type, decode_fixed_header_invalid_flags}
use lightmqtt.Header.{FixedHeader, DecodeResult, continue, failed, fresh, fixed_header_decode}

-- The first bytes of MQTT 3.1.1: a type from 1 to 14 in the high half; the low half is 2 for
-- PUBREL, SUBSCRIBE and UNSUBSCRIBE, dup, qos (not 3, and not 0 with dup) and retain for PUBLISH,
-- and 0 otherwise.
abbrev pub legal_bytes : List ℕ
legal_bytes =
    0x10 ∷ 0x20 ∷ 0x30 ∷ 0x31 ∷ 0x32 ∷ 0x33 ∷ 0x34 ∷ 0x35 ∷ 0x3a ∷ 0x3b ∷ 0x3c ∷ 0x3d ∷ 0x40 ∷ 0x50
    ∷ 0x62 ∷ 0x70 ∷ 0x82 ∷ 0x90 ∷ 0xa2 ∷ 0xb0 ∷ 0xc0 ∷ 0xd0 ∷ 0xe0 ∷ []

pub legal : ℕ → Bool
legal b = occurs b legal_bytes

-- The byte that a header stands for.
abbrev pub first_byte : FixedHeader → ℕ
first_byte h =
    16 * h.type
    + 8 * h.dup
    + 2 * h.qos
    + h.retain
    + (if h.type == 6 || h.type == 8 || h.type == 10 then 2 else 0)

continues : DecodeResult → ℕ
continues continue = 1
continues _ = 0

accepts : ℕ → ℕ
accepts b = continues (fixed_header_decode fresh b).result

accepts_table : (b : ℕ) → IsByte b → accepts b ≡ (if legal b then 1 else 0)
unfolding legal accepts continues fixed_header_decode tables_agree
accepts_table b h = agree_below 256 accepts (λ y. if legal y then 1 else 0) b refl h

repacked : ℕ → ℕ
repacked b =
    let d = fixed_header_decode fresh b in
    if accepts b == 1 then first_byte d.header + (if leb d.header.qos 2 then 0 else 256) else b

repacked_table : (b : ℕ) → IsByte b → repacked b ≡ b
unfolding repacked accepts continues fixed_header_decode tables_agree
repacked_table b h = agree_below 256 repacked (λ y. y) b refl h

abbrev pub type_error : ℕ → Error
type_error b =
    if b / 16 == 0 || b / 16 == 15
    then decode_fixed_header_invalid_type
    else decode_fixed_header_invalid_flags

shape :
    (b : ℕ)
    → IsByte b
    → let d = fixed_header_decode fresh b in
      ((d.result ≡ continue) × (d.error ≡ none))
      ⊎ ((d.result ≡ failed) × (d.error ≡ some (type_error b)))
unfolding fixed_header_decode
shape b h = ground arith

-- A first byte is taken exactly if it is one of the 23 of the protocol. It is then told apart
-- without loss into type, dup, qos (at most 2) and retain. Any other byte is an error: of the type
-- where the high half is 0 or 15, and of the flags otherwise.
pub first_byte_lem :
    (b : ℕ)
    → IsByte b
    → let d = fixed_header_decode fresh b in
      ((legal b ≡ true)
        × (d.result ≡ continue)
        × (d.error ≡ none)
        × (first_byte d.header ≡ b)
        × (d.header.qos ≤ 2))
      ⊎ ((legal b ≡ false) × (d.result ≡ failed) × (d.error ≡ some (type_error b)))
first_byte_lem b h = elim (shape b h) [
  | inl (r, e) ↦ inl (
    unfold accepts continues in ground (arith, accepts_table b h, r),
    r,
    e,
    unfold repacked accepts continues in ground (arith, repacked_table b h, r),
    unfold repacked accepts continues in ground (arith, repacked_table b h, r),
  )
  | inr (r, e) ↦ inr (unfold accepts continues in ground (arith, accepts_table b h, r), r, e)
]

-- The header of which only the first byte is known.
abbrev pub typed : ℕ → ℕ → ℕ → ℕ → FixedHeader
typed type dup qos retain = record fresh {
  type = type;
  dup = dup;
  qos = qos;
  retain = retain;
  bytes_read = 1;
  remain_len_multiplier = 1;
}
