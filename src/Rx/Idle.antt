-- ===== src/Rx/Idle.antt =====
-- The rx buffer between two packets, and the packets that it reads byte by byte.
use lightmqtt.Prelude.{
  ℕ, suc, ◌+◌, ◌*◌, ◌/◌, ◌%◌, ◌^◌, ◌<◌, ◌≡◌, ap, ◌∙◌, arith, false, none, List, ◌∷◌,
}
use lightmqtt.Prelude.{bit_or}
use lightmqtt.Prelude.Shifts.{bit_or_bytes, bit_or_zero}
use lightmqtt.Header.{fresh}
use lightmqtt.Store.{zero_value}
use lightmqtt.Rx.State.{Shared, Rx, zero_publish, MessageCallbacks, StoredCalls}
use lightmqtt.Rx.Publish.{or_byte}
use lightmqtt.Rx.Loop.{taken, rx_step, rx_loop}

-- What `lmqtt_rx_buffer_reset` leaves.
abbrev pub idle : {W : Type 0} → Shared W → Rx W
idle shared = record {
  shared = shared;
  header = fresh;
  header_finished = false;
  decoder = none;
  remain_buf_pos = 0;
  topic_len = 0;
  packet_id = 0;
  value = zero_value;
  publish = zero_publish;
  ignore_publish = false;
  blocking_str = none;
  error = none;
  os_error = 0;
}

-- The two bytes of a packet id, the high one first.
pub packet_id_bytes : (id : ℕ) → id < 2 ^ 16 → or_byte (or_byte 0 (id / 256) 1) (id % 256) 0 ≡ id
packet_id_bytes id narrow =
    let high : or_byte 0 (id / 256) 1 ≡ id / 256 * 256 =
      omega (arith, bit_or_zero (id / 256 * 256)) in
    let low : id % 256 * 2 ^ (0 * 8) ≡ id % 256 = omega arith in
    ap (λ v. or_byte v (id % 256) 0) high
    ∙ ap (λ l. bit_or (id / 256 * 256) l % 2 ^ 16) low
    ∙ omega (arith, bit_or_bytes (id / 256) (id % 256) (omega arith))

-- A step that takes one byte leaves the others to the loop.
pub loop_taken :
    {W : Type 0} (message : MessageCallbacks W) (calls : StoredCalls W) (fuel buf_len i b : ℕ)
    (rx rx' : Rx W) (bs : List ℕ)
    → rx_step message calls rx b bs ≡ taken 1 rx'
    → rx_loop message calls (suc fuel) buf_len i rx (b ∷ bs)
      ≡ rx_loop message calls fuel buf_len (i + 1) rx' bs
unfolding rx_loop
loop_taken message calls fuel buf_len i b rx rx' bs e = ground (arith, e)
