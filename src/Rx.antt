-- ===== src/Rx.antt =====
-- src/lmqtt_packet.c, `lmqtt_rx_buffer_t`: the decoder of incoming packets.
pub mod State
mod Tests
pub mod Decoders
pub mod Publish
pub mod Decode
pub mod Finish
pub mod Loop
pub mod Sticky
pub mod Writing
pub mod Taking
pub mod Ends
pub mod Idle
pub mod Answers
pub mod Connack
pub mod Once
