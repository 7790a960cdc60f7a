-- ===== src/Client/Results/Numbers.antt =====
-- The numbers that `lmqtt_client_run_once` puts together.
use lightmqtt.Prelude.{ℕ, ◌≡◌, refl, sym, subst, Bool, true, false, Option, none, some}
use lightmqtt.Prelude.{arith, bit_and, bit_or, if◌then◌else◌}
use lightmqtt.Core.{
  Error, encode_string, decode_fixed_header_invalid_type, decode_fixed_header_invalid_flags,
  decode_fixed_header_invalid_remaining_length, decode_fixed_header_server_specific,
  decode_nonzero_remaining_length, decode_no_corresponding_request, decode_response_too_short,
  decode_connack_invalid_acknowledge_flags, decode_connack_invalid_return_code,
  decode_connack_invalid_length, decode_suback_count_mismatch, decode_suback_invalid_return_code,
  decode_publish_invalid_length, decode_publish_id_set_full, decode_publish_topic_allocate_failed,
  decode_publish_topic_write_failed, decode_publish_payload_allocate_failed,
  decode_publish_payload_write_failed, decode_publish_message_callback_failed,
  decode_pubrel_id_set_full, connection_read, connection_write, timeout, closed,
  connack_unacceptable_protocol_version, connack_identifier_rejected, connack_server_unavailable,
  connack_bad_user_name_or_password, connack_not_authorized, callback_connack, callback_suback,
  callback_unsuback, callback_publish,
}
use lightmqtt.Strings.{is_some}
use lightmqtt.Client.State.{error_code}
use lightmqtt.Client.Run.{
  is_error, is_eof, would_block_data_rd, would_block_data_wr, is_queueable, res_error,
  res_would_block_conn_rd, res_would_block_conn_wr, res_would_block_data_rd,
  res_would_block_data_wr, res_queueable,
}

-- The numbers of the errors.
abbrev pub IsNumber : ℕ → Type 0
IsNumber n =
    (is_error (bit_and n res_error) ≡ true)
    × (is_eof (bit_and n res_error) ≡ false)
    × (bit_and n res_error ≡ n)

error_code-IsNumber : (e : Error) → IsNumber (error_code (some e))
error_code-IsNumber encode_string = (refl, refl, refl)
error_code-IsNumber decode_fixed_header_invalid_type = (refl, refl, refl)
error_code-IsNumber decode_fixed_header_invalid_flags = (refl, refl, refl)
error_code-IsNumber decode_fixed_header_invalid_remaining_length = (refl, refl, refl)
error_code-IsNumber decode_fixed_header_server_specific = (refl, refl, refl)
error_code-IsNumber decode_nonzero_remaining_length = (refl, refl, refl)
error_code-IsNumber decode_no_corresponding_request = (refl, refl, refl)
error_code-IsNumber decode_response_too_short = (refl, refl, refl)
error_code-IsNumber decode_connack_invalid_acknowledge_flags = (refl, refl, refl)
error_code-IsNumber decode_connack_invalid_return_code = (refl, refl, refl)
error_code-IsNumber decode_connack_invalid_length = (refl, refl, refl)
error_code-IsNumber decode_suback_count_mismatch = (refl, refl, refl)
error_code-IsNumber decode_suback_invalid_return_code = (refl, refl, refl)
error_code-IsNumber decode_publish_invalid_length = (refl, refl, refl)
error_code-IsNumber decode_publish_id_set_full = (refl, refl, refl)
error_code-IsNumber decode_publish_topic_allocate_failed = (refl, refl, refl)
error_code-IsNumber decode_publish_topic_write_failed = (refl, refl, refl)
error_code-IsNumber decode_publish_payload_allocate_failed = (refl, refl, refl)
error_code-IsNumber decode_publish_payload_write_failed = (refl, refl, refl)
error_code-IsNumber decode_publish_message_callback_failed = (refl, refl, refl)
error_code-IsNumber decode_pubrel_id_set_full = (refl, refl, refl)
error_code-IsNumber connection_read = (refl, refl, refl)
error_code-IsNumber connection_write = (refl, refl, refl)
error_code-IsNumber timeout = (refl, refl, refl)
error_code-IsNumber closed = (refl, refl, refl)
error_code-IsNumber connack_unacceptable_protocol_version = (refl, refl, refl)
error_code-IsNumber connack_identifier_rejected = (refl, refl, refl)
error_code-IsNumber connack_server_unavailable = (refl, refl, refl)
error_code-IsNumber connack_bad_user_name_or_password = (refl, refl, refl)
error_code-IsNumber connack_not_authorized = (refl, refl, refl)
error_code-IsNumber callback_connack = (refl, refl, refl)
error_code-IsNumber callback_suback = (refl, refl, refl)
error_code-IsNumber callback_unsuback = (refl, refl, refl)
error_code-IsNumber callback_publish = (refl, refl, refl)

pub failure-IsNumber : (e : Option Error) → is_some e ≡ true → IsNumber (error_code e)
failure-IsNumber none has = absurd (ground (arith, has))
failure-IsNumber (some e) has = error_code-IsNumber e

-- What the writing or the reading half of a round waits for.
pub data Wait : Type 0 where
  on_connection on_nothing : Wait
  on_string : ℕ → Wait

abbrev pub string : Wait → Option ℕ
string on_connection = none
string on_nothing = none
string (on_string a) = some a

abbrev pub sent_number : Wait → ℕ
sent_number on_connection = res_would_block_conn_wr
sent_number on_nothing = 0
sent_number (on_string a) = res_would_block_data_rd

abbrev pub received_number : Wait → ℕ → ℕ
received_number on_connection n = bit_or n res_would_block_conn_rd
received_number on_nothing n = n
received_number (on_string a) n = bit_or n res_would_block_data_wr

-- A number that tells of strings that are waited for, and whether requests are welcome.
abbrev pub Tells : ℕ → Option ℕ → Option ℕ → Bool → Type 0
Tells n str_rd str_wr welcome =
    (is_error n ≡ false)
    × (is_eof n ≡ false)
    × (would_block_data_rd n ≡ is_some str_rd)
    × (would_block_data_wr n ≡ is_some str_wr)
    × (is_queueable n ≡ welcome)

abbrev pub welcoming : Bool → ℕ → ℕ
welcoming true n = bit_or n res_queueable
welcoming false n = n

numbers :
    (w v : Wait) (q : Bool)
    → Tells (welcoming q (received_number v (sent_number w))) (string w) (string v) q
numbers on_connection on_connection true = (refl, refl, refl, refl, refl)
numbers on_connection on_connection false = (refl, refl, refl, refl, refl)
numbers on_connection on_nothing true = (refl, refl, refl, refl, refl)
numbers on_connection on_nothing false = (refl, refl, refl, refl, refl)
numbers on_connection (on_string b) true = (refl, refl, refl, refl, refl)
numbers on_connection (on_string b) false = (refl, refl, refl, refl, refl)
numbers on_nothing on_connection true = (refl, refl, refl, refl, refl)
numbers on_nothing on_connection false = (refl, refl, refl, refl, refl)
numbers on_nothing on_nothing true = (refl, refl, refl, refl, refl)
numbers on_nothing on_nothing false = (refl, refl, refl, refl, refl)
numbers on_nothing (on_string b) true = (refl, refl, refl, refl, refl)
numbers on_nothing (on_string b) false = (refl, refl, refl, refl, refl)
numbers (on_string a) on_connection true = (refl, refl, refl, refl, refl)
numbers (on_string a) on_connection false = (refl, refl, refl, refl, refl)
numbers (on_string a) on_nothing true = (refl, refl, refl, refl, refl)
numbers (on_string a) on_nothing false = (refl, refl, refl, refl, refl)
numbers (on_string a) (on_string b) true = (refl, refl, refl, refl, refl)
numbers (on_string a) (on_string b) false = (refl, refl, refl, refl, refl)

pub told :
    (w v : Wait) (q : Bool) (n : ℕ) (str_rd str_wr : Option ℕ)
    → n ≡ received_number v (sent_number w)
    → str_rd ≡ string w
    → str_wr ≡ string v
    → Tells (welcoming q n) str_rd str_wr q
told w v q n str_rd str_wr e f g =
    subst (λ k. Tells (welcoming q k) str_rd str_wr q) (sym e)
      (subst (λ k. Tells (welcoming q (received_number v (sent_number w))) k str_wr q) (sym f)
        (subst (λ k. Tells (welcoming q (received_number v (sent_number w))) (string w) k q) (sym g)
          (numbers w v q)))

pub waits_for :
    (s : Option ℕ)
    → (w : Wait) × ((if is_some s then bit_or 0 res_would_block_data_rd else 0) ≡ sent_number w)
      × (s ≡ string w)
waits_for none = (on_nothing, refl, refl)
waits_for (some a) = (on_string a, refl, refl)

pub waits_too :
    (w : Wait) (s : Option ℕ)
    → (v : Wait) × ((if is_some s
          then bit_or (sent_number w) res_would_block_data_wr
          else sent_number w)
        ≡ received_number v (sent_number w))
      × (s ≡ string v)
waits_too w none = (on_nothing, refl, refl)
waits_too w (some a) = (on_string a, refl, refl)
