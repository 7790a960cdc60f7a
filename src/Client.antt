-- ===== src/Client.antt =====
-- src/lmqtt_client.c: the client, which moves bytes between the connection and the two buffers,
-- and keeps the requests of the application in two stores.
pub mod State
mod Tests
pub mod Requests
pub mod Commands
pub mod Setup
pub mod Transfer
pub mod Exec
pub mod Run
pub mod Results
pub mod Cleanup
pub mod Phases
pub mod Effects
pub mod Lifecycle
pub mod Reachable
pub mod KeepAlive
pub mod Told
pub mod Initial
pub mod Sizes
