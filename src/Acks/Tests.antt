-- ===== src/Acks/Tests.antt =====
-- Runs of the header-only packets.
use lightmqtt.Prelude.{refl, arith}
use lightmqtt.Encode.{zero_buffer}
use lightmqtt.Acks.{
  puback_build, pubrec_build, pubrel_build, pubcomp_build, pingreq_build, disconnect_build,
}
use lightmqtt.Acks.RoundTrip.{Carries, Bare, acks_round_trip}

acks_example :
    Carries (puback_build 0x1234) zero_buffer 4 0x1234
    × Carries (pubrec_build 0x1234) zero_buffer 5 0x1234
    × Carries (pubrel_build 0x1234) zero_buffer 6 0x1234
    × Carries (pubcomp_build 0x1234) zero_buffer 7 0x1234
    × Bare pingreq_build zero_buffer 12
    × Bare disconnect_build zero_buffer 14
acks_example = acks_round_trip 0x1234 zero_buffer (omega arith) refl
