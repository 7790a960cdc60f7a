-- ===== src/Client/Exec.antt =====
-- The loops of the client: `client_buffer_transfer` and `lmqtt_client_run_once`.
use lightmqtt.Prelude.{ℕ, zero, suc, ◌-◌, Bool, true, false, not, ◌&&◌, ◌||◌, Option, none, some}
use lightmqtt.Prelude.{take, drop, write_at, ltb, ◌==◌, if◌then◌else◌}
use lightmqtt.Core.{Error, timeout}
use lightmqtt.Encode.{◌>>=◌}
use lightmqtt.Strings.{is_some}
use lightmqtt.Store.{store_touch}
use lightmqtt.Store.Defs.{is_zero}
use lightmqtt.Client.State.{
  IoStatus, status_ready, status_block_conn, status_block_data, status_error, Client, session_of,
  set_session_of,
}
use lightmqtt.Client.Commands.{
  touched, client_set_state_initial, client_set_state_failed, client_pingreq,
}
use lightmqtt.Client.Setup.{client_get_timeout}
use lightmqtt.Client.Transfer.{
  wrapper_decode, wrapper_encode, wrapper_read, wrapper_write, Transfer, transfer_initialize,
  is_success, is_error, is_would_block, transfer_is_eof, Bytes, transfer_append, transfer_shift,
  Ran, unfinished, ran, ◌>=>◌, of_option, run_wrapper,
}

-- What `transfer_exec` returns and leaves.
pub record Executed (U : Type 0) : Type 0 where
  pub ok : Bool
  pub transfer : Transfer
  pub bytes : Bytes
  pub client : Client U

-- What the two transfers of a call have done; `ok` tells that neither has failed.
pub record Transferred (U : Type 0) : Type 0 where
  pub ok : Bool
  pub input : Transfer
  pub output : Transfer
  pub bytes : Bytes
  pub client : Client U

-- What a function with a buffer returns and leaves.
pub record Processed (U : Type 0) : Type 0 where
  pub status : IoStatus
  pub bytes : Bytes
  pub client : Client U

module _ {U : Type 0} where
  -- The end of `transfer_exec`.
  abbrev executed : Transfer → Bytes → Client U → Option Error → ℕ → Executed U
  executed t b c error os_error =
      let s = record (session_of c) { error = error; os_error = os_error } in
      if is_error t.result
      then record { ok = false; transfer = t; bytes = b; client = set_session_of c s }
      else record { ok = true; transfer = t; bytes = b; client = c }

  -- `transfer_exec`
  unfoldable pub transfer_exec :
      ℕ → Transfer → Client U → Bytes → (Transfer → Bytes → Bytes) → ℕ → ℕ → Ran (Executed U)
  unfolding run_wrapper
  transfer_exec fuel t c b after_exec left right =
      if t.available && ltb left right
      then (run_wrapper fuel t.transfer_wrapper c (take (right - left) (drop left b.buf))
            (right - left)
          >=> λ w.
              let on = is_success w.result && ltb 0 w.count in
              let t' = record t {
                result = w.result;
                count = w.count;
                available = on;
                stale = t.stale && not on;
              } in
              ran (
                executed t' (after_exec t' (record b { buf = write_at b.buf left w.bytes }))
                  w.client w.error w.os_error))
      else ran (executed (record t { available = false }) b c none 0)

  -- The loop of `client_buffer_transfer`, with `rounds` rounds at most.
  unfoldable pub transfer_loop :
      ℕ → ℕ → Transfer → Transfer → Client U → Bytes → ℕ → Ran (Transferred U)
  unfolding transfer_exec transfer_append transfer_shift
  transfer_loop fuel zero input output c b buf_len = unfinished
  transfer_loop fuel (suc rounds) input output c b buf_len =
      elim (input.available || output.available) [
        | false ↦ ran (record { ok = true; input = input; output = output; bytes = b; client = c })
        | true ↦ transfer_exec fuel input c b transfer_append b.buf_pos buf_len >=> λ x. elim x.ok [
          | false ↦ ran (record {
            ok = false;
            input = x.transfer;
            output = output;
            bytes = x.bytes;
            client = x.client;
          })
          | true ↦
              transfer_exec fuel output x.client x.bytes transfer_shift 0 x.bytes.buf_pos >=> λ y.
              elim y.ok [
                | true ↦ transfer_loop fuel rounds x.transfer y.transfer y.client y.bytes buf_len
                | false ↦ ran (record {
                  ok = false;
                  input = x.transfer;
                  output = y.transfer;
                  bytes = y.bytes;
                  client = y.client;
                })
              ]
        ]
      ]

  -- What follows the loop.
  unfoldable pub transfer_end : Transferred U → Ran (Processed U)
  unfolding transfer_is_eof client_set_state_initial client_set_state_failed store_touch
  transfer_end t =
      let fresh = not t.input.stale || not t.output.stale in
      let c = if fresh then touched t.client (session_of t.client).current_store else t.client in
      if not t.ok
      then (of_option (client_set_state_failed t.client) >=> λ c'.
          ran (record { status = status_error; bytes = t.bytes; client = c' }))
      else if transfer_is_eof t.input || transfer_is_eof t.output
      then (of_option (client_set_state_initial c) >=> λ c'.
          ran (record { status = status_ready; bytes = t.bytes; client = c' }))
      else ran (record {
        status =
            if is_would_block t.input.result && (t.bytes.buf_pos == 0)
            then t.input.block_status
            else t.output.block_status;
        bytes = t.bytes;
        client = c;
      })

  -- `client_buffer_transfer`
  unfoldable pub client_buffer_transfer :
      ℕ → ℕ → Client U → Transfer → Transfer → Bytes → ℕ → Ran (Processed U)
  unfolding transfer_loop transfer_end
  client_buffer_transfer fuel rounds c input output b buf_len =
      if is_some (session_of c).error
      then ran (record { status = status_error; bytes = b; client = c })
      else (transfer_loop fuel rounds input output c b buf_len >=> λ t. transfer_end t)

  -- `client_process_input`
  unfoldable pub client_process_input : ℕ → ℕ → Client U → Ran (IoStatus × Client U)
  unfolding client_buffer_transfer transfer_initialize
  client_process_input fuel rounds c =
      client_buffer_transfer fuel rounds c (transfer_initialize wrapper_read status_block_conn)
        (transfer_initialize wrapper_decode status_block_data)
        (record { buf = c.read_buf; buf_pos = c.read_buf_pos }) c.read_buf_capacity
      >=> λ p.
          ran (p.status, record p.client { read_buf = p.bytes.buf; read_buf_pos = p.bytes.buf_pos })

  -- `client_process_output`
  unfoldable pub client_process_output : ℕ → ℕ → Client U → Ran (IoStatus × Client U)
  unfolding client_buffer_transfer transfer_initialize
  client_process_output fuel rounds c =
      client_buffer_transfer fuel rounds c (transfer_initialize wrapper_encode status_block_data)
        (transfer_initialize wrapper_write status_block_conn)
        (record { buf = c.write_buf; buf_pos = c.write_buf_pos }) c.write_buf_capacity
      >=> λ p.
          ran
            (p.status, record p.client { write_buf = p.bytes.buf; write_buf_pos = p.bytes.buf_pos })

  -- `client_keep_alive`
  unfoldable pub client_keep_alive : Client U → Option (IoStatus × Client U)
  unfolding client_get_timeout client_set_state_failed client_pingreq
  client_keep_alive c =
      let (t, asked) = client_get_timeout c in
      let late =
        set_session_of asked (record (session_of asked) { error = some timeout; os_error = 0 }) in
      if is_some (session_of c).error
      then some (status_error, c)
      else if not t.armed || not (is_zero t.secs) || not (is_zero t.nsecs)
      then some (status_ready, asked)
      else if ltb 0 t.count
      then (client_set_state_failed late >>= λ c'. some (status_error, c'))
      else (client_pingreq asked >>= λ (ok, c'). some (status_ready, c'))
