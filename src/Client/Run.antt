-- ===== src/Client/Run.antt =====
-- `lmqtt_client_run_once`, and the numbers that it returns.
use lightmqtt.Prelude.{ℕ, zero, suc, Bool, true, false, not, ◌&&◌, Option, none}
use lightmqtt.Prelude.{◌==◌, if◌then◌else◌, bit_or, bit_and}
use lightmqtt.Strings.{is_some}
use lightmqtt.Store.{store_has_current, store_is_queueable}
use lightmqtt.Client.State.{
  IoStatus, status_ready, status_block_conn, status_block_data, status_error, Client, error_code,
  current, session_of,
}
use lightmqtt.Client.Transfer.{Ran, halted, unfinished, ran, ◌>=>◌, of_option}
use lightmqtt.Client.Exec.{client_process_input, client_process_output, client_keep_alive}

abbrev pub res_error : ℕ
res_error = 0xff

abbrev pub res_would_block_conn_rd : ℕ
res_would_block_conn_rd = 0x100

abbrev pub res_would_block_conn_wr : ℕ
res_would_block_conn_wr = 0x200

abbrev pub res_would_block_data_rd : ℕ
res_would_block_data_rd = 0x400

abbrev pub res_would_block_data_wr : ℕ
res_would_block_data_wr = 0x800

abbrev pub res_eof : ℕ
res_eof = 0x1000

abbrev pub res_queueable : ℕ
res_queueable = 0x2000

-- `LMQTT_IS_ERROR`
abbrev pub is_error : ℕ → Bool
is_error res = not (bit_and res res_error == 0)

-- `LMQTT_WOULD_BLOCK_CONN_RD`
abbrev pub would_block_conn_rd : ℕ → Bool
would_block_conn_rd res =
    bit_and res (bit_or res_eof res_would_block_conn_rd) == res_would_block_conn_rd

-- `LMQTT_WOULD_BLOCK_CONN_WR`
abbrev pub would_block_conn_wr : ℕ → Bool
would_block_conn_wr res =
    bit_and res (bit_or res_eof res_would_block_conn_wr) == res_would_block_conn_wr

-- `LMQTT_WOULD_BLOCK_DATA_RD`
abbrev pub would_block_data_rd : ℕ → Bool
would_block_data_rd res = not (bit_and res res_would_block_data_rd == 0)

-- `LMQTT_WOULD_BLOCK_DATA_WR`
abbrev pub would_block_data_wr : ℕ → Bool
would_block_data_wr res = not (bit_and res res_would_block_data_wr == 0)

-- `LMQTT_IS_EOF`
abbrev pub is_eof : ℕ → Bool
is_eof res = not (bit_and res res_eof == 0)

-- `LMQTT_IS_EOF_RD`
abbrev pub is_eof_rd : ℕ → Bool
is_eof_rd res =
    bit_and res (bit_or res_eof res_would_block_conn_rd) == bit_or res_eof res_would_block_conn_rd

-- `LMQTT_IS_EOF_WR`
abbrev pub is_eof_wr : ℕ → Bool
is_eof_wr res =
    bit_and res (bit_or res_eof res_would_block_conn_wr) == bit_or res_eof res_would_block_conn_wr

-- `LMQTT_IS_QUEUEABLE`
abbrev pub is_queueable : ℕ → Bool
is_queueable res = not (bit_and res res_queueable == 0)

-- `LMQTT_ERROR_NUM`
abbrev pub error_num : ℕ → ℕ
error_num res = bit_and res res_error

-- What `client_process_buffer` returns, stores through `return_val` and `blk_str_out`, and leaves.
pub record Buffered (U : Type 0) : Type 0 where
  pub on : Bool
  pub return_val : ℕ
  pub blk_str : Option ℕ
  pub client : Client U

-- What `lmqtt_client_run_once` returns, stores and leaves.
pub record Once (U : Type 0) : Type 0 where
  pub result : ℕ
  pub str_rd : Option ℕ
  pub str_wr : Option ℕ
  pub client : Client U

module _ {U : Type 0} where
  -- The end of `client_process_buffer`, behind the call of `process`; `blk_str_in` is read behind it.
  unfoldable pub client_process_buffer :
      IoStatus → Client U → ℕ → ℕ → (Client U → Option ℕ) → ℕ → Ran (Buffered U)
  client_process_buffer status_ready c conn_val data_val blk_str_in return_val =
      ran (record { on = false; return_val = bit_or res_eof conn_val; blk_str = none; client = c })
  client_process_buffer status_error c conn_val data_val blk_str_in return_val =
      if is_some (session_of c).error
      then ran (record {
        on = false;
        return_val = bit_and (error_code (session_of c).error) res_error;
        blk_str = none;
        client = c;
      })
      else halted
  client_process_buffer status_block_conn c conn_val data_val blk_str_in return_val =
      ran
        (record { on = true; return_val = bit_or return_val conn_val; blk_str = none; client = c })
  client_process_buffer status_block_data c conn_val data_val blk_str_in return_val = ran (record {
    on = true;
    return_val = if is_some (blk_str_in c) then bit_or return_val data_val else return_val;
    blk_str = blk_str_in c;
    client = c;
  })

  abbrev pub once : Buffered U → Option ℕ → Option ℕ → Once U
  once b str_rd str_wr = record {
    result = b.return_val;
    str_rd = str_rd;
    str_wr = str_wr;
    client = b.client;
  }

  -- The lines behind the loop.
  abbrev pub queueable : Once U → Once U
  queueable o =
      if store_is_queueable (session_of o.client).main_store
      then record o { result = bit_or o.result res_queueable }
      else o

  -- The loop of `lmqtt_client_run_once`, with `rounds` rounds at most.
  unfoldable pub run_loop : ℕ → ℕ → ℕ → Client U → Ran (Once U)
  unfolding client_process_output client_process_input client_process_buffer store_has_current
      store_is_queueable
  run_loop fuel steps zero c = unfinished
  run_loop fuel steps (suc rounds) c = client_process_output fuel steps c >=> λ (status, c1).
      client_process_buffer status c1 res_would_block_conn_wr res_would_block_data_rd
        (λ k. k.tx.buffer.blocking_str) 0
      >=> λ out. elim out.on [
        | false ↦ ran (once out none none)
        | true ↦
            let had_current = store_has_current (current (session_of out.client)) in
            client_process_input fuel steps out.client >=> λ (status', c2).
            client_process_buffer status' c2 res_would_block_conn_rd res_would_block_data_wr
              (λ k. k.rx.blocking_str) out.return_val
            >=> λ inp. elim inp.on [
              | false ↦ ran (once inp out.blk_str none)
              | true ↦
                  elim (not (would_block_conn_wr inp.return_val)
                    && not had_current
                    && store_has_current (current (session_of inp.client))) [
                      | true ↦ run_loop fuel steps rounds inp.client
                      | false ↦ ran (queueable (once inp out.blk_str inp.blk_str))
                    ]
            ]
      ]

  -- `lmqtt_client_run_once`
  unfoldable pub client_run_once : ℕ → ℕ → ℕ → Client U → Ran (Once U)
  unfolding client_keep_alive run_loop
  client_run_once fuel steps rounds c = of_option (client_keep_alive c) >=> λ (status, c').
      elim status [
        | status_error ↦
            if is_some (session_of c').error
            then ran (record {
              result = bit_and (error_code (session_of c').error) res_error;
              str_rd = none;
              str_wr = none;
              client = c';
            })
            else halted
        | _ ↦ run_loop fuel steps rounds c'
      ]
