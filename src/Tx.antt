-- ===== src/Tx.antt =====
-- src/lmqtt_packet.c, `lmqtt_tx_buffer_t`: the loop that sends the packets of the store, part by part.
pub mod Parts
pub mod Finders
pub mod Loop
pub mod Weights
pub mod Bounds
pub mod Leads
pub mod Ends
pub mod Rounds
pub mod PublishParts
pub mod Publishing
mod Tests
