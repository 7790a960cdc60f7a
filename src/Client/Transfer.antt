-- ===== src/Client/Transfer.antt =====
-- The transfer of bytes between the connection and the two buffers.
use lightmqtt.Prelude.{ℕ, ◌+◌, ◌-◌, ◌^◌, Bool, true, false, ◌&&◌, Option, none, some, List, []}
use lightmqtt.Prelude.{take, drop, length, write_at, ◌==◌}
use lightmqtt.Core.{
  IoResult, io_success, io_would_block, io_error, Error, connection_read, connection_write,
}
use lightmqtt.Strings.{Reply}
use lightmqtt.Tx.Parts.{Heap}
use lightmqtt.Tx.Loop as TxLoop
use lightmqtt.Tx.Loop.{Tx, TxEnd, Calls, tx_buffer_encode, tx_buffer_get_error}
use lightmqtt.Rx.State.{rx_buffer_get_error}
use lightmqtt.Rx.Loop as RxLoop
use lightmqtt.Rx.Loop.{RxEnd, rx_buffer_decode}
use lightmqtt.Client.State.{
  IoStatus, Session, Client, Reach, set_store_of, current, copy_in, copy_out, reach, set_reach,
  session_of, set_session_of,
}
use lightmqtt.Client.Requests.{client_call}
use lightmqtt.Client.Commands.{call_depth}
use lightmqtt.Client.Setup.{stored_calls}

-- The functions of type `lmqtt_transfer_wrapper_t`.
pub data Wrapper : Type 0 where
  wrapper_decode wrapper_encode wrapper_read wrapper_write : Wrapper

-- `lmqtt_transfer_t`
pub record Transfer : Type 0 where
  pub transfer_wrapper : Wrapper
  pub block_status : IoStatus
  pub available : Bool
  pub stale : Bool
  pub result : IoResult
  pub count : ℕ

-- `transfer_initialize`; the count -1 becomes the greatest `size_t`.
unfoldable pub transfer_initialize : Wrapper → IoStatus → Transfer
transfer_initialize wrapper status = record {
  transfer_wrapper = wrapper;
  block_status = status;
  available = true;
  stale = true;
  result = io_success;
  count = 2 ^ 64 - 1;
}

abbrev pub is_success : IoResult → Bool
is_success io_success = true
is_success _ = false

abbrev pub is_error : IoResult → Bool
is_error io_error = true
is_error _ = false

abbrev pub is_would_block : IoResult → Bool
is_would_block io_would_block = true
is_would_block _ = false

-- `transfer_is_eof`
unfoldable pub transfer_is_eof : Transfer → Bool
transfer_is_eof t = is_success t.result && (t.count == 0)

-- A buffer and the number of its bytes that are in use.
pub record Bytes : Type 0 where
  pub buf : List ℕ
  pub buf_pos : ℕ

-- `transfer_append`
unfoldable pub transfer_append : Transfer → Bytes → Bytes
transfer_append t b = record b { buf_pos = b.buf_pos + t.count }

-- `transfer_shift`
unfoldable pub transfer_shift : Transfer → Bytes → Bytes
transfer_shift t b = record {
  buf = write_at b.buf 0 (take (b.buf_pos - t.count) (drop t.count b.buf));
  buf_pos = b.buf_pos - t.count;
}

-- How a function ends that can fail an assertion or run out of fuel.
pub data Ran (A : Type 0) : Type 0 where
  halted unfinished : Ran A
  ran : A → Ran A

infixl 5 ◌>=>◌
abbrev pub ◌>=>◌ : {A B : Type 0} → Ran A → (A → Ran B) → Ran B
halted >=> f = halted
unfinished >=> f = unfinished
ran a >=> f = f a

abbrev pub of_option : {A : Type 0} → Option A → Ran A
of_option none = halted
of_option (some a) = ran a

-- What a wrapper returns and leaves; `bytes` are those that it writes to its buffer.
pub record Wrapped (U : Type 0) : Type 0 where
  pub result : IoResult
  pub count : ℕ
  pub bytes : List ℕ
  pub error : Option Error
  pub os_error : ℕ
  pub client : Client U

module _ {U : Type 0} where
  -- `client_wrapper_decode`
  unfoldable pub client_wrapper_decode : Client U → List ℕ → Ran (Wrapped U)
  unfolding rx_buffer_decode rx_buffer_get_error
  client_wrapper_decode c buf =
      elim (rx_buffer_decode c.message_callbacks stored_calls
        (record c.rx { shared = copy_in (reach c) }) buf) [
          | RxLoop.fault ↦ halted
          | RxLoop.unfinished ↦ unfinished
          | RxLoop.returned result count rx ↦ ran (record {
            result = result;
            count = count;
            bytes = [];
            error = (rx_buffer_get_error rx).0;
            os_error = (rx_buffer_get_error rx).1;
            client = record c { rx = record rx { shared = copy_out rx.shared } };
          })
        ]

  -- The callbacks, as the tx buffer calls them. A CONNECT waits for its answer, so it is not among
  -- them, and the others leave the stores and the id set alone.
  abbrev tx_calls : Reach U → Calls (Session U)
  tx_calls r f itself value heap =
      elim (client_call call_depth f value (record r { heap = heap })) [
        | none ↦ (false, heap)
        | some (ok, r') ↦ (ok, r'.heap)
      ]

  -- What a call of `lmqtt_tx_buffer_encode` leaves.
  abbrev set_tx : Client U → Tx → Heap (Session U) → Client U
  set_tx c tx heap =
      let s = set_store_of heap.world heap.world.current_store tx.store in
      record (set_reach c (record (reach c) { heap = record heap { world = s } })) { tx = tx }

  -- `client_wrapper_encode`
  unfoldable pub client_wrapper_encode : ℕ → Client U → ℕ → Ran (Wrapped U)
  unfolding tx_buffer_encode tx_buffer_get_error
  client_wrapper_encode fuel c room =
      elim (tx_buffer_encode (tx_calls (reach c)) fuel room
        (record c.tx { store = current (session_of c) }) (reach c).heap) [
          | TxLoop.fault ↦ halted
          | TxLoop.unfinished ↦ unfinished
          | TxLoop.returned result bytes tx heap ↦ ran (record {
            result = result;
            count = length bytes;
            bytes = bytes;
            error = (tx_buffer_get_error tx).0;
            os_error = (tx_buffer_get_error tx).1;
            client = set_tx c tx heap;
          })
        ]

  -- What a call of a callback of the connection leaves.
  abbrev replied : Client U → Reply U → Error → Wrapped U
  replied c reply error = record {
    result = reply.result;
    count = reply.count;
    bytes = reply.bytes;
    error = some error;
    os_error = reply.os_error;
    client = set_session_of c (record (session_of c) { outside = reply.world });
  }

  -- `client_wrapper_read`
  unfoldable pub client_wrapper_read : Client U → ℕ → Wrapped U
  client_wrapper_read c room =
      replied c (c.callbacks.read room (session_of c).outside) connection_read

  -- `client_wrapper_write`; nothing is written to the client's buffer.
  unfoldable pub client_wrapper_write : Client U → List ℕ → Wrapped U
  client_wrapper_write c buf =
      record (replied c (c.callbacks.write buf (session_of c).outside) connection_write) {
        bytes = [];
      }

  -- The wrappers, on the `room` bytes `buf`.
  unfoldable pub run_wrapper : ℕ → Wrapper → Client U → List ℕ → ℕ → Ran (Wrapped U)
  unfolding client_wrapper_decode client_wrapper_encode client_wrapper_read client_wrapper_write
  run_wrapper fuel wrapper_decode c buf room = client_wrapper_decode c buf
  run_wrapper fuel wrapper_encode c buf room = client_wrapper_encode fuel c room
  run_wrapper fuel wrapper_read c buf room = ran (client_wrapper_read c room)
  run_wrapper fuel wrapper_write c buf room = ran (client_wrapper_write c buf)
