-- ===== src/Rx/State.antt =====
-- The state of `lmqtt_rx_buffer_t`, and the callbacks for messages. A callback may change what it
-- can reach: the stores, the id set, the objects and the world.
use lightmqtt.Prelude.{ℕ, Bool, false, Option, none}
use lightmqtt.Prelude.Int.{pos}
use lightmqtt.Core.{Error}
use lightmqtt.Header.{FixedHeader, fresh, DecodeResult}
use lightmqtt.IdSet.{IdSet}
use lightmqtt.Strings.{LmqttString}
use lightmqtt.Store.{Store, StoreValue, zero_value, Callback}
use lightmqtt.Publish.{Publish}
use lightmqtt.Tx.Parts.{Heap}

-- `lmqtt_allocate_result_t`
pub data AllocateResult : Type 0 where
  allocate_success allocate_ignore allocate_error : AllocateResult

-- What the functions of the rx buffer share with the callbacks: the store that `store` points to,
-- `id_set` and the heap.
pub record Shared (W : Type 0) : Type 0 where
  pub store : Store
  pub id_set : IdSet
  pub heap : Heap W

-- Calls of `lmqtt_message_on_publish_t` and its kin; `on_publish_data` is part of the function.
abbrev pub OnPublish : Type 0 → Type 0
OnPublish W = Publish W → Shared W → Bool × Publish W × Shared W

abbrev pub OnAllocate : Type 0 → Type 0
OnAllocate W = Publish W → ℕ → Shared W → AllocateResult × Publish W × Shared W

abbrev pub OnDeallocate : Type 0 → Type 0
OnDeallocate W = Publish W → Shared W → Publish W × Shared W

-- `lmqtt_message_callbacks_t`
pub record MessageCallbacks (W : Type 0) : Type 0 where
  pub on_publish : Option (OnPublish W)
  pub on_publish_allocate_topic : Option (OnAllocate W)
  pub on_publish_allocate_payload : Option (OnAllocate W)
  pub on_publish_deallocate : Option (OnDeallocate W)

-- Calls of the callbacks of stored values.
abbrev pub StoredCalls : Type 0 → Type 0
StoredCalls W = Callback → Option ℕ → Option ℕ → Shared W → Bool × Shared W

-- The elements of `rx_buffer_decoders`.
pub data Decoder : Type 0 where
  connack publish puback pubrec pubrel pubcomp suback unsuback pingresp : Decoder

-- `lmqtt_rx_buffer_t`; all but `shared` is `internal`.
pub record Rx (W : Type 0) : Type 0 where
  pub shared : Shared W
  pub header : FixedHeader
  pub header_finished : Bool
  pub decoder : Option Decoder
  pub remain_buf_pos : ℕ
  pub topic_len : ℕ
  pub packet_id : ℕ
  pub value : StoreValue
  pub publish : Publish W
  pub ignore_publish : Bool
  pub blocking_str : Option ℕ
  pub error : Option Error
  pub os_error : ℕ

-- The addresses of `internal.publish.topic` and of `internal.publish.payload`.
abbrev pub topic_addr : ℕ
topic_addr = 0

abbrev pub payload_addr : ℕ
payload_addr = 1

module _ {W : Type 0} where
  -- A string of zero bytes.
  abbrev pub zero_string : ℕ → LmqttString W
  zero_string addr = record {
    addr = addr;
    len = pos 0;
    buf = none;
    read = none;
    write = none;
    pos = 0;
  }

  abbrev pub zero_publish : Publish W
  zero_publish = record {
    qos = 0;
    retain = false;
    topic = zero_string topic_addr;
    payload = zero_string payload_addr;
    encode_count = 0;
  }

  -- `lmqtt_rx_buffer_reset`
  unfoldable pub rx_buffer_reset : Rx W → Rx W
  rx_buffer_reset rx = record {
    shared = rx.shared;
    header = fresh;
    header_finished = false;
    decoder = none;
    remain_buf_pos = 0;
    topic_len = 0;
    packet_id = 0;
    value = zero_value;
    publish = zero_publish;
    ignore_publish = false;
    blocking_str = none;
    error = none;
    os_error = 0;
  }

  -- `rx_buffer_fail`, without the returned `LMQTT_IO_ERROR`
  unfoldable pub rx_buffer_fail : Rx W → Option Error → ℕ → Rx W
  rx_buffer_fail rx error os_error = record rx { error = error; os_error = os_error }

  -- `lmqtt_rx_buffer_get_error`
  unfoldable pub rx_buffer_get_error : Rx W → Option Error × ℕ
  rx_buffer_get_error rx = (rx.error, rx.os_error)

  -- `lmqtt_rx_buffer_get_blocking_str`
  unfoldable pub rx_buffer_get_blocking_str : Rx W → Option ℕ
  rx_buffer_get_blocking_str rx = rx.blocking_str

-- What a function with a `lmqtt_decode_bytes_t` returns: its result, the bytes that it took, and the
-- state.
pub record Decoding (W : Type 0) : Type 0 where
  pub result : DecodeResult
  pub written : ℕ
  pub rx : Rx W
