-- ===== src/Rx/Decoders.antt =====
-- The table `rx_buffer_decoders`.
use lightmqtt.Prelude.{ℕ, Bool, true, false, Option, none, some, [], ◌∷◌, get_elem?}
use lightmqtt.Core.{
  Error, Kind, kind_code, callback_connack, callback_publish, callback_suback, callback_unsuback,
}
use lightmqtt.Core
use lightmqtt.Rx.State.{
  Decoder, connack, publish, puback, pubrec, pubrel, pubcomp, suback, unsuback, pingresp,
}

abbrev pub min_length : Decoder → ℕ
min_length publish = 3
min_length suback = 3
min_length pingresp = 0
min_length _ = 2

-- `kind`, as a number
abbrev pub decoder_kind : Decoder → ℕ
decoder_kind connack = kind_code Core.Kind.connect
decoder_kind puback = kind_code Core.Kind.publish_1
decoder_kind pubrec = kind_code Core.Kind.publish_2
decoder_kind pubcomp = kind_code Core.Kind.pubrel
decoder_kind suback = kind_code Core.Kind.subscribe
decoder_kind unsuback = kind_code Core.Kind.unsubscribe
decoder_kind pingresp = kind_code Core.Kind.pingreq
decoder_kind publish = 0
decoder_kind pubrel = 0

-- `pop_packet_without_id` is `rx_buffer_pop_packet_without_id`; otherwise it ignores the call.
abbrev pub pops_without_id : Decoder → Bool
pops_without_id connack = true
pops_without_id pingresp = true
pops_without_id _ = false

-- `decode_remaining` is `rx_buffer_decode_remaining_with_id`.
abbrev pub decodes_with_id : Decoder → Bool
decodes_with_id connack = false
decodes_with_id publish = false
decodes_with_id pingresp = false
decodes_with_id _ = true

abbrev pub callback_error : Decoder → Option Error
callback_error connack = some callback_connack
callback_error puback = some callback_publish
callback_error pubcomp = some callback_publish
callback_error suback = some callback_suback
callback_error unsuback = some callback_unsuback
callback_error _ = none

abbrev flat : Option (Option Decoder) → Option Decoder
flat none = none
flat (some d) = d

-- `rx_buffer_decoders[type]`
unfoldable pub rx_buffer_decoders : ℕ → Option Decoder
rx_buffer_decoders type = flat (
    get_elem?
      (none
        ∷ none
        ∷ some connack
        ∷ some publish
        ∷ some puback
        ∷ some pubrec
        ∷ some pubrel
        ∷ some pubcomp
        ∷ none
        ∷ some suback
        ∷ none
        ∷ some unsuback
        ∷ none
        ∷ some pingresp
        ∷ none
        ∷ [])
      type)
