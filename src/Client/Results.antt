-- ===== src/Client/Results.antt =====
-- What the number that `lmqtt_client_run_once` returns tells.
mod Numbers
use lightmqtt.Prelude.{
  ℕ, zero, suc, ◌≡◌, refl, sym, subst, ◌∙◌, Bool, true, false, not, ◌⊎◌, inl, inr, Option, none,
  some,
}
use lightmqtt.Prelude.{arith, bit_and, bit_or, if◌then◌else◌}
use lightmqtt.Core.{
  Error, encode_string, decode_fixed_header_invalid_type, decode_fixed_header_invalid_flags,
  decode_fixed_header_invalid_remaining_length, decode_fixed_header_server_specific,
  decode_nonzero_remaining_length, decode_no_corresponding_request, decode_response_too_short,
  decode_connack_invalid_acknowledge_flags, decode_connack_invalid_return_code,
  decode_connack_invalid_length, decode_suback_count_mismatch, decode_suback_invalid_return_code,
  decode_publish_invalid_length, decode_publish_id_set_full, decode_publish_topic_allocate_failed,
  decode_publish_topic_write_failed, decode_publish_payload_allocate_failed,
  decode_publish_payload_write_failed, decode_publish_message_callback_failed,
  decode_pubrel_id_set_full, connection_read, connection_write, timeout, closed,
  connack_unacceptable_protocol_version, connack_identifier_rejected, connack_server_unavailable,
  connack_bad_user_name_or_password, connack_not_authorized, callback_connack, callback_suback,
  callback_unsuback, callback_publish,
}
use lightmqtt.Strings.{is_some}
use lightmqtt.Store.{store_is_queueable, store_has_current}
use lightmqtt.Client.State.{
  status_ready, status_block_conn, status_block_data, status_error, IoStatus, Client, error_code,
  session_of, current,
}
use lightmqtt.Client.Transfer.{Ran, halted, unfinished, ran, ◌>=>◌, of_option}
use lightmqtt.Client.Exec.{client_process_input, client_process_output, client_keep_alive}
use lightmqtt.Client.Run.{
  Once, Buffered, client_process_buffer, run_loop, client_run_once, is_error, is_eof, is_eof_rd,
  is_eof_wr, would_block_data_rd, would_block_data_wr, is_queueable, res_error, once, queueable,
  res_would_block_conn_rd, res_would_block_conn_wr, res_would_block_data_rd,
  res_would_block_data_wr, res_queueable,
}
use lightmqtt.Client.Results.Numbers.{
  IsNumber, failure-IsNumber, Wait, on_connection, string, sent_number, received_number, told,
  waits_for, waits_too,
}

-- A property of what is returned, if anything is.
abbrev Returns : {A : Type 0} → (A → Type 0) → Ran A → Type 0
Returns P halted = Unit
Returns P unfinished = Unit
Returns P (ran a) = P a

Returns-bind :
    {A B : Type 0} (Q : A → Type 0) (P : B → Type 0) (x : Ran A) (f : A → Ran B)
    → Returns Q x
    → ((a : A) → Q a → Returns P (f a))
    → Returns P (x >=> f)
Returns-bind Q P halted f q all = tt
Returns-bind Q P unfinished f q all = tt
Returns-bind Q P (ran a) f q all = all a q

Returns-all : {A : Type 0} (Q : A → Type 0) (x : Ran A) → ((a : A) → Q a) → Returns Q x
Returns-all Q halted all = tt
Returns-all Q unfinished all = tt
Returns-all Q (ran a) all = all a

Returns-if :
    {A : Type 0} (P : A → Type 0) (b : Bool) (a : A)
    → (b ≡ true → P a)
    → Returns P (if b then ran a else halted)
Returns-if P true a h = h refl
Returns-if P false a h = tt

module _ {U : Type 0} where
  -- The result is the number of the client's error.
  abbrev pub IsFailure : Once U → Type 0
  IsFailure o =
      (is_error o.result ≡ true)
      × (is_eof o.result ≡ false)
      × (o.result ≡ error_code (session_of o.client).error)

  -- The connection has ended, for reading or for writing.
  abbrev pub IsEnd : Once U → Type 0
  IsEnd o =
      (is_error o.result ≡ false)
      × (is_eof o.result ≡ true)
      × (is_eof_wr o.result ≡ not (is_eof_rd o.result))

  -- The client waits. The strings that it waits for are told exactly when their bits are set, and
  -- requests are welcome when the store of requests says so.
  abbrev pub IsWait : Once U → Type 0
  IsWait o =
      (is_error o.result ≡ false)
      × (is_eof o.result ≡ false)
      × (would_block_data_rd o.result ≡ is_some o.str_rd)
      × (would_block_data_wr o.result ≡ is_some o.str_wr)
      × (is_queueable o.result ≡ store_is_queueable (session_of o.client).main_store)

  abbrev pub Reports : Once U → Type 0
  Reports o = IsFailure o ⊎ IsEnd o ⊎ IsWait o

  -- The two halves of a round: what a half that goes on waits for, and what one that ends reports.
  abbrev Sent : Buffered U → Type 0
  Sent out = elim out.on [
    | false ↦ Reports (once out none none)
    | true ↦ (w : Wait) × (out.return_val ≡ sent_number w) × (out.blk_str ≡ string w)
  ]

  abbrev Received : Wait → Buffered U → Type 0
  Received w inp = elim inp.on [
    | false ↦ (str_rd : Option ℕ) → Reports (once inp str_rd none)
    | true ↦
        (v : Wait) × (inp.return_val ≡ received_number v (sent_number w)) × (inp.blk_str ≡ string v)
  ]

  sent :
      (status : IoStatus) (c : Client U) (blk : Client U → Option ℕ)
      → Returns Sent
          (client_process_buffer status c res_would_block_conn_wr res_would_block_data_rd blk 0)
  unfolding client_process_buffer
  sent status_ready c blk = inr (inl (refl, refl, refl))
  sent status_error c blk =
      Returns-if Sent (is_some (session_of c).error) _
        (λ has. inl (failure-IsNumber (session_of c).error has))
  sent status_block_conn c blk = (on_connection, refl, refl)
  sent status_block_data c blk = waits_for (blk c)

  received :
      (w : Wait) (status : IoStatus) (c : Client U) (blk : Client U → Option ℕ)
      → Returns (Received w) (
          client_process_buffer status c res_would_block_conn_rd res_would_block_data_wr blk
            (sent_number w))
  unfolding client_process_buffer
  received w status_ready c blk = λ str. inr (inl (refl, refl, refl))
  received w status_error c blk =
      Returns-if (Received w) (is_some (session_of c).error) _
        (λ has str. inl (failure-IsNumber (session_of c).error has))
  received w status_block_conn c blk = (on_connection, refl, refl)
  received w status_block_data c blk = waits_too w (blk c)

  queueable_waits :
      (w v : Wait) (o : Once U)
      → o.result ≡ received_number v (sent_number w)
      → o.str_rd ≡ string w
      → o.str_wr ≡ string v
      → (q : Bool) → q ≡ store_is_queueable (session_of o.client).main_store
      → IsWait (if q then record o { result = bit_or o.result res_queueable } else o)
  queueable_waits w v o e f g true h =
      let (a, b, c, d, k) = told w v true o.result o.str_rd o.str_wr e f g in (a, b, c, d, k ∙ h)
  queueable_waits w v o e f g false h =
      let (a, b, c, d, k) = told w v false o.result o.str_rd o.str_wr e f g in (a, b, c, d, k ∙ h)

  -- The end of half a round, whether it goes on or not.
  goes_on :
      {X Y : Type 0} (b : Bool) (x y : Ran (Once U))
      → (elim b as (λ _. Type 0) [ false ↦ X | true ↦ Y ])
      → (X → Returns Reports x)
      → (Y → Returns Reports y)
      → Returns Reports (elim b as (λ _. Ran (Once U)) [ false ↦ x | true ↦ y ])
  goes_on false x y q f g = f q
  goes_on true x y q f g = g q

  either :
      (b : Bool) (x y : Ran (Once U))
      → Returns Reports x
      → Returns Reports y
      → Returns Reports (elim b as (λ _. Ran (Once U)) [ false ↦ x | true ↦ y ])
  either false x y f g = f
  either true x y f g = g

  -- `again` is what the loop does next.
  round :
      (w : Wait) (str_rd : Option ℕ)
      → str_rd ≡ string w
      → (again : Client U → Ran (Once U)) → ((c : Client U) → Returns Reports (again c))
      → (inp : Buffered U) (more : Bool) → Received w inp
      → Returns Reports (elim inp.on as (λ _. Ran (Once U)) [
        | false ↦ ran (once inp str_rd none)
        | true ↦ elim more as (λ _. Ran (Once U)) [
          | true ↦ again inp.client
          | false ↦ ran (queueable (once inp str_rd inp.blk_str))
        ]
      ])
  unfolding store_is_queueable
  round w str_rd e again all inp more r =
      goes_on inp.on _ _ r (λ reports. reports str_rd)
        (λ (v, f, g).
          either more _ _
            (inr (
              inr (
                queueable_waits w v (once inp str_rd inp.blk_str) f e g
                  (store_is_queueable (session_of inp.client).main_store) refl)))
            (all inp.client))

  loop-Reports :
      (fuel steps rounds : ℕ) (c : Client U) → Returns Reports (run_loop fuel steps rounds c)
  unfolding run_loop client_process_buffer
  loop-Reports fuel steps zero c = tt
  loop-Reports fuel steps (suc rounds) c =
      Returns-bind (λ _. Unit) Reports (client_process_output fuel steps c) _
        (Returns-all (λ _. Unit) _ (λ _. tt))
        (λ (status, c1) _.
          Returns-bind Sent Reports _ _ (sent status c1 (λ k. k.tx.buffer.blocking_str)) (λ out s.
            goes_on out.on _ _ s (λ reports. reports)
              (λ (w, e, f).
                Returns-bind (λ _. Unit) Reports (client_process_input fuel steps out.client) _
                  (Returns-all (λ _. Unit) _ (λ _. tt))
                  (λ (status', c2) _.
                    Returns-bind (Received w) Reports _ _
                      (subst
                        (λ r. Returns (Received w) (
                          client_process_buffer status' c2 res_would_block_conn_rd
                            res_would_block_data_wr (λ k. k.rx.blocking_str) r))
                        (sym e) (received w status' c2 (λ k. k.rx.blocking_str)))
                      (λ inp r.
                        round w out.blk_str f (run_loop fuel steps rounds)
                          (loop-Reports fuel steps rounds) inp _ r)))))

  keep_alive-Reports :
      (fuel steps rounds : ℕ) (status : IoStatus) (c : Client U)
      → Returns Reports (elim status as (λ _. Ran (Once U)) [
        | status_error ↦
            if is_some (session_of c).error
            then ran (record {
              result = bit_and (error_code (session_of c).error) res_error;
              str_rd = none;
              str_wr = none;
              client = c;
            })
            else halted
        | _ ↦ run_loop fuel steps rounds c
      ])
  keep_alive-Reports fuel steps rounds status_error c =
      Returns-if Reports (is_some (session_of c).error) _
        (λ has. inl (failure-IsNumber (session_of c).error has))
  keep_alive-Reports fuel steps rounds status_ready c = loop-Reports fuel steps rounds c
  keep_alive-Reports fuel steps rounds status_block_conn c = loop-Reports fuel steps rounds c
  keep_alive-Reports fuel steps rounds status_block_data c = loop-Reports fuel steps rounds c

  -- What `lmqtt_client_run_once` returns tells one of three things, in the terms of the macros of
  -- include/lightmqtt/client.h. Either it is an error: the result is the number of the client's
  -- error, and not an end. Or the connection has ended, without an error, for exactly one of reading
  -- and writing. Or the client waits: the result is neither an error nor an end, the bits for blocked
  -- data are set exactly where the string that blocks is handed out, and the bit for new requests is
  -- set exactly when the main store has room for a request.
  pub run_once-Reports :
      (fuel steps rounds : ℕ) (c : Client U) (o : Once U)
      → client_run_once fuel steps rounds c ≡ ran o
      → Reports o
  unfolding client_run_once
  run_once-Reports fuel steps rounds c o e = subst (Returns Reports) e (
      Returns-bind (λ _. Unit) Reports (of_option (client_keep_alive c)) _
        (Returns-all (λ _. Unit) _ (λ _. tt))
        (λ (status, c') _. keep_alive-Reports fuel steps rounds status c'))
