-- ===== src/Rx/Sticky.antt =====
-- A failed rx buffer stays failed.
use lightmqtt.Prelude.{ℕ, zero, suc, ◌+◌, ◌≡◌, refl, arith, true, false, some, List, [], ◌∷◌}
use lightmqtt.Prelude.{length, drop, Option-cases, Bool-cases, ◌⊎◌, inl, inr}
use lightmqtt.Core.{io_error}
use lightmqtt.Header.{FixedHeader, failed, fixed_header_decode}
use lightmqtt.Strings.{is_some}
use lightmqtt.Rx.State.{MessageCallbacks, StoredCalls, Rx, Decoder, rx_buffer_fail}
use lightmqtt.Rx.Finish.{rx_buffer_finish_packet, rx_finish_callback}
use lightmqtt.Rx.Loop.{
  returned, RxStep, taken, blocked, broken, faulty, rx_header_finished, rx_header_step,
  rx_remaining_step, rx_finish_step, rx_step, rx_return, rx_loop, rx_buffer_decode,
}

header_fails :
    (h : FixedHeader) (b : ℕ)
    → (fixed_header_decode h b).result ≡ failed
    → is_some (fixed_header_decode h b).error ≡ true
unfolding fixed_header_decode
header_fails h b e = ground arith

pub RxStep-cases :
    {W : Type 0} (s : RxStep W)
    → ((count : ℕ) × (rx : Rx W) × (s ≡ taken count rx))
      ⊎ ((rx : Rx W) × (s ≡ blocked rx))
      ⊎ ((count : ℕ) × (rx : Rx W) × (s ≡ broken count rx))
      ⊎ (s ≡ faulty)
RxStep-cases (taken count rx) = inl (count, rx, refl)
RxStep-cases (blocked rx) = inr (inl (rx, refl))
RxStep-cases (broken count rx) = inr (inr (inl (count, rx, refl)))
RxStep-cases faulty = inr (inr (inr refl))

-- The state of a broken step holds an error.
abbrev Broken : {W : Type 0} → RxStep W → Type 0
Broken s = (n : ℕ) (rx : _) → s ≡ broken n rx → is_some rx.error ≡ true

module _ {W : Type 0} where
  header_finished-Broken : (rx : Rx W) → Broken (rx_header_finished rx)
  unfolding rx_header_finished rx_buffer_fail
  header_finished-Broken rx n rx' e = ground arith

  header_step-Broken : (rx : Rx W) (b : ℕ) → Broken (rx_header_step rx b)
  unfolding rx_header_step rx_buffer_fail
  header_step-Broken rx b n rx' e = ground (
    arith,
    header_fails rx.header b,
    header_finished-Broken (record rx { header = (fixed_header_decode rx.header b).header }) n rx',
  )

module _ {W : Type 0} (message : MessageCallbacks W) (calls : StoredCalls W) where
  remaining_step-Broken :
      (rx : Rx W) (buf : List ℕ) → Broken (rx_remaining_step message calls rx buf)
  unfolding rx_remaining_step
  remaining_step-Broken rx buf n rx' e = ground arith

  finish_packet_fails :
      (rx rx' : Rx W) (d : Decoder)
      → rx_buffer_finish_packet calls rx d ≡ some (false, rx')
      → is_some rx'.error ≡ true
  unfolding rx_buffer_finish_packet rx_finish_callback rx_buffer_fail
  finish_packet_fails rx rx' d e = ground arith

  finish_step-Broken : (count : ℕ) (rx : Rx W) → Broken (rx_finish_step message calls count rx)
  unfolding rx_finish_step
  finish_step-Broken count rx n rx' e = elim (Option-cases rx.decoder) [
    | inl no_decoder ↦ ground (arith, no_decoder)
    | inr (d, has) ↦ ground (arith, has, finish_packet_fails rx rx' d)
  ]

  step-Broken : (rx : Rx W) (b : ℕ) (bs : List ℕ) → Broken (rx_step message calls rx b bs)
  unfolding rx_step
  step-Broken rx b bs n rx' e = elim (Bool-cases rx.header_finished) [
    | inl whole ↦ elim (RxStep-cases (rx_remaining_step message calls rx (b ∷ bs))) [
      | inl (count, next, s) ↦ ground (arith, whole, s, finish_step-Broken count next n rx')
      | inr (inl (next, s)) ↦ ground (arith, whole, s)
      | inr (inr (inl (count, next, s))) ↦
          ground (arith, whole, s, remaining_step-Broken rx (b ∷ bs) n rx')
      | inr (inr (inr s)) ↦ ground (arith, whole, s)
    ]
    | inr not_whole ↦ elim (RxStep-cases (rx_header_step rx b)) [
      | inl (count, next, s) ↦ ground (arith, not_whole, s, finish_step-Broken count next n rx')
      | inr (inl (next, s)) ↦ ground (arith, not_whole, s)
      | inr (inr (inl (count, next, s))) ↦
          ground (arith, not_whole, s, header_step-Broken rx b n rx')
      | inr (inr (inr s)) ↦ ground (arith, not_whole, s)
    ]
  ]

  loop_fails :
      (fuel buf_len i : ℕ) (rx : Rx W) (buf : List ℕ) (n : ℕ) (rx' : Rx W)
      → rx_loop message calls fuel buf_len i rx buf ≡ returned io_error n rx'
      → is_some rx'.error ≡ true
  unfolding rx_loop rx_return
  loop_fails fuel buf_len i rx [] n rx' e = ground (arith, e)
  loop_fails zero buf_len i rx (b ∷ bs) n rx' e = ground (arith, e)
  loop_fails (suc fuel) buf_len i rx (b ∷ bs) n rx' e =
      elim (RxStep-cases (rx_step message calls rx b bs)) [
        | inl (count, next, s) ↦
            loop_fails fuel buf_len (i + count) next (drop count (b ∷ bs)) n rx'
              (ground (arith, e, s))
        | inr (inl (next, s)) ↦ ground (arith, e, s)
        | inr (inr (inl (count, next, s))) ↦ ground (arith, e, s, step-Broken rx b bs count next s)
        | inr (inr (inr s)) ↦ ground (arith, e, s)
      ]

  -- Once `lmqtt_rx_buffer_decode` has returned an error, every later call returns an error at once:
  -- it reads no byte, calls nothing and leaves the state, with the error in it, as it is.
  pub failed_stays_failed :
      (rx : Rx W) (buf : List ℕ) (n : ℕ) (rx' : Rx W)
      → rx_buffer_decode message calls rx buf ≡ returned io_error n rx'
      → (later : List ℕ)
      → (is_some rx'.error ≡ true)
        × (rx_buffer_decode message calls rx' later ≡ returned io_error 0 rx')
  unfolding rx_buffer_decode
  failed_stays_failed rx buf n rx' e later =
      let set : is_some rx'.error ≡ true = elim (Option-cases rx.error) [
        | inl fine ↦ loop_fails (length buf) (length buf) 0 rx buf n rx' (ground (arith, e, fine))
        | inr (old, has) ↦ ground (arith, e, has)
      ] in
      (set, ground (arith, set))
