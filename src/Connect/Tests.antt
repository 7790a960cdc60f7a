-- ===== src/Connect/Tests.antt =====
-- Runs of the encoders of CONNECT.
use lightmqtt.Prelude.{
  ℕ, ◌+◌, ◌*◌, ◌≡◌, refl, arith, true, false, none, some, List, [], ◌∷◌, length,
}
use lightmqtt.Prelude.Int.{pos}
use lightmqtt.Header.{FixedHeader, fresh, feed, done}
use lightmqtt.Encode.{EncodeBuffer, zero_buffer}
use lightmqtt.Encode.Pieces.{part}
use lightmqtt.Strings.{LmqttString}
use lightmqtt.Strings.Encoding.{IsMemory}
use lightmqtt.Connect.{
  Connect, connect_flags, connect_validate, connect_build_fixed_header,
  connect_build_variable_header,
}
use lightmqtt.Connect.Flags.{connect_flags-sum}
use lightmqtt.Connect.Lengths.{Fields, payload, connect_headers}

abbrev memory : List ℕ → LmqttString Unit
memory bs = record {
  addr = 1;
  len = pos (length bs);
  buf = some bs;
  read = none;
  write = none;
  pos = 0;
}

-- A client `c` with a will and a user name, and no password.
abbrev packet : Connect Unit
packet = record {
  keep_alive = 300;
  clean_session = true;
  will_qos = 1;
  will_retain = false;
  client_id = memory (b'c' ∷ []);
  will_topic = memory (b't' ∷ []);
  will_message = memory (b'm' ∷ b'n' ∷ []);
  user_name = memory (b'u' ∷ []);
  password = memory [];
  session_present = 0;
}

abbrev memory-IsMemory : (bs : List ℕ) → IsMemory (memory bs) bs
memory-IsMemory bs = record { len_eq = refl; buf_eq = refl; no_read = refl }

abbrev fields : Fields packet
fields = record {
  client_id = b'c' ∷ [];
  will_topic = b't' ∷ [];
  will_message = b'm' ∷ b'n' ∷ [];
  user_name = b'u' ∷ [];
  password = [];
  client_id_in = memory-IsMemory (b'c' ∷ []);
  will_topic_in = memory-IsMemory (b't' ∷ []);
  will_message_in = memory-IsMemory (b'm' ∷ b'n' ∷ []);
  user_name_in = memory-IsMemory (b'u' ∷ []);
  password_in = memory-IsMemory [];
}

connect_headers_example :
    (p : EncodeBuffer) × (v : EncodeBuffer) × (h : FixedHeader) × (connect_build_fixed_header packet
        zero_buffer
      ≡ some p)
    × (connect_build_variable_header packet zero_buffer ≡ some v)
    × (feed fresh (part p) ≡ done h [])
    × (h.type ≡ 1)
    × (h.remaining_length ≡ length (part v) + length (payload packet fields))
unfolding connect_validate
connect_headers_example = connect_headers packet fields zero_buffer refl refl

connect_flags-sum_example : connect_flags 1 true false true true false ≡ 8 * 1 + 2 + 0 + 4 + 128 + 0
connect_flags-sum_example = connect_flags-sum 1 true false true true false (omega arith)
