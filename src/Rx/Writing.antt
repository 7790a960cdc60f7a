-- ===== src/Rx/Writing.antt =====
-- Strings that the rx buffer writes, when each write takes bytes or tells that it takes none.
use lightmqtt.Prelude.{
  sym, ℕ, zero, suc, ◌+◌, ◌-◌, ◌≤◌, ◌<◌, ◌≡◌, refl, arith, true, Option, none, some, List, ◌∷◌,
}
use lightmqtt.Prelude.{
  length, take, min, ap, subst, take_all, Option-cases, Bool-cases, ◌⊎◌, inl, inr,
}
use lightmqtt.Core.{io_success}
use lightmqtt.Strings.{
  LmqttString, Writer, Moved, string_write, string_move, StringResult, string_success,
  string_would_block, string_os_error, string_invalid_object,
}
use lightmqtt.Publish.{Publish}
use lightmqtt.Rx.State.{
  Shared, MessageCallbacks, OnPublish, OnAllocate, OnDeallocate, Rx, rx_buffer_fail,
}
use lightmqtt.Rx.Publish.{
  PublishPart, part_topic, part_payload, AllocateWrite, get_allocate, get_string, set_string,
  rx_allocate, rx_write, rx_buffer_allocate_write,
}

-- A callback that reports success has taken a byte, when it was given one.
abbrev pub Takes : {W : Type 0} → Option (Writer W) → Type 0
Takes none = Unit
Takes (some f) =
    (b : ℕ) (bs : List ℕ) (w : _) → (f (b ∷ bs) w).result ≡ io_success → 0 < (f (b ∷ bs) w).count

abbrev pub TakesBoth : {W : Type 0} → Publish W → Type 0
TakesBoth p = Takes p.topic.write × Takes p.payload.write

module _ {W : Type 0} where
  write-Takes :
      (s : LmqttString W) (b : ℕ) (bs : List ℕ) (w : W) (m : Moved W)
      → Takes s.write
      → string_write s (b ∷ bs) w ≡ some m
      → (m.str.write ≡ s.write) × (m.result ≡ string_success → 0 < m.count)
  unfolding string_write string_move
  write-Takes s b bs w m t e = elim (Option-cases s.write) [
    | inl none_there ↦ (ground (arith, e, none_there), λ r. ground (arith, e, none_there))
    | inr (f, has) ↦
        let t' : Takes (some f) = subst (λ x. Takes x) has t in
        let all : take (suc (length bs)) (b ∷ bs) ≡ b ∷ bs =
          ap (λ xs. b ∷ xs) (take_all (length bs) bs (omega arith)) in
        elim (Option-cases s.buf) [
          | inl no_buf ↦ (
            ground (arith, e, has, no_buf, all),
            λ r. ground (arith, e, has, no_buf, all, r, t' b bs w),
          )
          | inr (buf, has_buf) ↦
              (ground (arith, e, has, has_buf), λ r. ground (arith, e, has, has_buf, r))
        ]
  ]

-- No callback gives back a message with a string that stands still.
pub record KeepsTaking {W : Type 0} (message : MessageCallbacks W) : Type 0 where
  pub on_publish :
      (f : OnPublish W)
      → message.on_publish ≡ some f
      → (p : Publish W) (s : Shared W) → TakesBoth p
      → TakesBoth (f p s).1
  pub on_topic :
      (f : OnAllocate W)
      → message.on_publish_allocate_topic ≡ some f
      → (p : Publish W) (n : ℕ) (s : Shared W) → TakesBoth p
      → TakesBoth (f p n s).1
  pub on_payload :
      (f : OnAllocate W)
      → message.on_publish_allocate_payload ≡ some f
      → (p : Publish W) (n : ℕ) (s : Shared W) → TakesBoth p
      → TakesBoth (f p n s).1
  pub on_deallocate :
      (f : OnDeallocate W)
      → message.on_publish_deallocate ≡ some f
      → (p : Publish W) (s : Shared W) → TakesBoth p
      → TakesBoth (f p s).0

StringResult-cases :
    (r : StringResult)
    → (r ≡ string_success)
      ⊎ (r ≡ string_would_block)
      ⊎ (r ≡ string_os_error)
      ⊎ (r ≡ string_invalid_object)
StringResult-cases string_success = inl refl
StringResult-cases string_would_block = inr (inl refl)
StringResult-cases string_os_error = inr (inr (inl refl))
StringResult-cases string_invalid_object = inr (inr (inr refl))

min-suc : (n k : ℕ) → 0 < k → (m : ℕ) × (min (suc n) k ≡ suc m)
min-suc n (suc k) lt = (min n k, omega arith)
min-suc n zero lt = absurd (omega arith)

module _ {W : Type 0} (message : MessageCallbacks W) where
  part-Takes :
      (p : Publish W) (part : PublishPart) → TakesBoth p → Takes (get_string message part p).write
  part-Takes p part_topic (a, b) = a
  part-Takes p part_payload (a, b) = b

  set-Takes :
      (p : Publish W) (part : PublishPart) (s : LmqttString W)
      → TakesBoth p
      → Takes s.write
      → TakesBoth (set_string message part p s)
  set-Takes p part_topic s (a, b) c = (c, b)
  set-Takes p part_payload s (a, b) c = (a, c)

module _ {W : Type 0} (message : MessageCallbacks W) (keeps : KeepsTaking message) where
  allocate_callback :
      (part : PublishPart) (f : OnAllocate W)
      → get_allocate message part ≡ some f
      → (p : Publish W) (n : ℕ) (s : Shared W) → TakesBoth p
      → TakesBoth (f p n s).1
  allocate_callback part_topic = keeps.on_topic
  allocate_callback part_payload = keeps.on_payload

  allocate_takes :
      (rx : Rx W) (when : ℕ) (part : PublishPart) (len : ℕ)
      → TakesBoth rx.publish
      → TakesBoth (rx_allocate message rx when part len).1.publish
  unfolding rx_allocate rx_buffer_fail
  allocate_takes rx when part len t = elim (Option-cases (get_allocate message part)) [
    | inl no_callback ↦ rw (no_callback, rx_allocate) t
    | inr (f, has) ↦ ground (arith, has, t, allocate_callback part f has rx.publish len rx.shared t)
  ]

  write_part_takes :
      (rx : Rx W) (part : PublishPart) (b : ℕ) (bs : List ℕ) (a : AllocateWrite W)
      → TakesBoth rx.publish
      → rx_write message rx part (b ∷ bs) ≡ some a
      → TakesBoth a.rx.publish × (a.ok ≡ true → a.rx.blocking_str ≡ none → 0 < a.written)
  unfolding rx_write rx_buffer_fail
  write_part_takes rx part b bs a t e =
      let s : LmqttString W = get_string message part rx.publish in
      elim (Option-cases (string_write s (b ∷ bs) rx.shared.heap.world)) [
        | inl fault ↦ ground (arith, e, t, fault)
        | inr (m, moves) ↦
            let (same, took) =
              write-Takes s b bs rx.shared.heap.world m (part-Takes message rx.publish part t)
                moves in
            let kept : TakesBoth (set_string message part rx.publish m.str) =
              set-Takes message rx.publish part m.str t
                (subst (λ x. Takes x) (sym same) (part-Takes message rx.publish part t)) in
            elim (StringResult-cases m.result) [
              | inl success ↦ ground (arith, e, t, moves, kept, success, took)
              | inr (inl blocks) ↦ ground (arith, e, t, moves, kept, blocks)
              | inr (inr (inl breaks)) ↦ ground (arith, e, t, moves, kept, breaks)
              | inr (inr (inr invalid)) ↦ ground (arith, e, t, moves, kept, invalid)
            ]
      ]

  -- Both parts of a message, from a byte that is in the part.
  pub allocate_write_takes :
      (rx : Rx W) (when : ℕ) (part : PublishPart) (len b : ℕ) (bs : List ℕ) (a : AllocateWrite W)
      → TakesBoth rx.publish
      → when ≤ rx.remain_buf_pos + 1
      → rx.remain_buf_pos + 1 < when + len
      → rx_buffer_allocate_write message rx when part len (b ∷ bs) ≡ some a
      → TakesBoth a.rx.publish × (a.ok ≡ true → a.rx.blocking_str ≡ none → 0 < a.written)
  unfolding rx_buffer_allocate_write
  allocate_write_takes rx when part len b bs a t begun inside e =
      let max_len : ℕ = len - (rx.remain_buf_pos + 1 - when) in
      let rx' : Rx W = (rx_allocate message rx when part len).1 in
      let t' : TakesBoth rx'.publish = allocate_takes rx when part len t in
      elim (Bool-cases (rx_allocate message rx when part len).0) [
        | inr refused ↦ ground (arith, e, refused, t')
        | inl allocated ↦
            let (n, some_bytes) = min-suc (length bs) max_len (omega arith) in
            write_part_takes rx' part b (take n bs) a t' (ground (arith, e, allocated, some_bytes))
      ]
