-- ===== src/Rx/Connack/Header.antt =====
-- The fixed header of a CONNACK, and the request that it takes out of the store.
use lightmqtt.Prelude.{
  ℕ, suc, ◌*◌, ◌/◌, ◌<◌, ◌≤◌, ◌≡◌, refl, ◌∙◌, arith, true, none, some, List, ◌∷◌,
}
use lightmqtt.Prelude.{if◌then◌else◌, length, bit_and}
use lightmqtt.Prelude.Bytes.{tables_agree, agree_below, bit_and_128, bit_and_127}
use lightmqtt.Core.{io_error, decode_no_corresponding_request}
use lightmqtt.Header.{finished, FixedHeader, fresh, fixed_header_decode}
use lightmqtt.Store.{Store, StoreValue, store_pop_marked_by}
use lightmqtt.Rx.State.{Shared, Rx, connack, MessageCallbacks, StoredCalls, rx_buffer_fail}
use lightmqtt.Rx.Decoders.{rx_buffer_decoders, decoder_kind}
use lightmqtt.Rx.Decode.{pop_packet_without_id, rx_buffer_pop_packet}
use lightmqtt.Rx.Finish.{rx_buffer_is_packet_finished}
use lightmqtt.Rx.Loop.{
  RxEnd, returned, taken, broken, rx_header_step, rx_header_finished, rx_finish_step, rx_step,
  rx_loop, rx_buffer_decode,
}
use lightmqtt.Rx.Idle.{idle}

-- The fixed header of a CONNACK with a remaining length of one byte.
abbrev pub header_of : ℕ → FixedHeader
header_of len = record fresh {
  type = 2;
  remaining_length = len;
  bytes_read = 2;
  remain_len_multiplier = 128;
  remain_len_accumulator = len;
  remain_len_finished = true;
}

header_decodes :
    (len : ℕ)
    → len < 128
    → let h = (fixed_header_decode fresh 0x20).header in
      fixed_header_decode h len ≡ record { result = finished; error = none; header = header_of len }
unfolding fixed_header_decode
header_decodes len small =
    ground (arith, bit_and_128 len (omega arith), bit_and_127 len (omega arith))

pub bit_and_254 : (b : ℕ) → b < 256 → bit_and b 0xfe ≡ b / 2 * 2
unfolding tables_agree
bit_and_254 b h = agree_below 256 (λ y. bit_and y 0xfe) (λ y. y / 2 * 2) b refl h

module _ {W : Type 0} where
  -- The state behind the fixed header, with the CONNECT taken out of the store.
  abbrev pub headed : Shared W → ℕ → StoreValue → Store → Rx W
  headed shared len v store = record (idle (record shared { store = store })) {
    header = header_of len;
    header_finished = true;
    decoder = some connack;
    value = v;
  }

  abbrev typed_state : Shared W → Rx W
  typed_state shared = record (idle shared) { header = (fixed_header_decode fresh 0x20).header }

module _ {W : Type 0} (message : MessageCallbacks W) (calls : StoredCalls W) where
  abbrev pub after_header : ℕ → List ℕ → Shared W → RxEnd W
  after_header len rest shared =
      let (found, v, store) = store_pop_marked_by shared.store (decoder_kind connack) 0 in
      if found
      then rx_loop message calls (length rest) (suc (suc (length rest))) 2
          (headed shared len v store) rest
      else returned io_error 2
          (record (headed shared len v store) { error = some decode_no_corresponding_request })

  first_read :
      (len : ℕ) (rest : List ℕ) (shared : Shared W)
      → rx_buffer_decode message calls (idle shared) (0x20 ∷ len ∷ rest)
        ≡ rx_loop message calls
            (suc (length rest))
            (suc (suc (length rest)))
            1
            (typed_state shared)
            (len ∷ rest)
  unfolding rx_buffer_decode rx_loop rx_step rx_header_step fixed_header_decode
  first_read len rest shared = refl

  length_step :
      (len : ℕ) (shared : Shared W)
      → len < 128
      → rx_header_step (typed_state shared) len
        ≡ rx_header_finished (record (idle shared) { header = header_of len })
  unfolding rx_header_step
  length_step len shared small = ground (arith, header_decodes len small)

  header_step :
      (len : ℕ) (shared : Shared W)
      → 2 ≤ len
      → let (found, v, store) = store_pop_marked_by shared.store (decoder_kind connack) 0 in
        rx_header_finished (record (idle shared) { header = header_of len }) ≡ (
          if found
          then taken 1 (headed shared len v store)
          else broken 1
              (record (headed shared len v store) { error = some decode_no_corresponding_request }))
  unfolding rx_header_finished rx_buffer_decoders pop_packet_without_id rx_buffer_pop_packet
      rx_buffer_fail
  header_step len shared large = ground arith

  pub header_read :
      (len : ℕ) (rest : List ℕ) (shared : Shared W)
      → 2 ≤ len
      → len < 128
      → rx_buffer_decode message calls (idle shared) (0x20 ∷ len ∷ rest)
        ≡ after_header len rest shared
  unfolding rx_loop rx_step rx_finish_step rx_buffer_is_packet_finished fixed_header_decode
  header_read len rest shared large small =
      first_read len rest shared
      ∙ ground (arith, length_step len shared small, header_step len shared large)
