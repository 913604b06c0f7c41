-- ===== src/Ipc.antt =====
-- The packet channel between host and guest: core/ipc.cpp, fake/ipc_client.cpp and
-- common/include/ac_ipc_protocol.h of app/src/main/cpp.
pub mod Wire
pub mod Stream
pub mod Send
pub mod Loop
pub mod Clients
pub mod Event
pub mod Guest
pub mod Client
pub mod Server
pub mod Threads
pub mod Broadcast
pub mod Consumer
pub mod Reconnect
pub mod Input
