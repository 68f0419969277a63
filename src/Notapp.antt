-- ===== src/Notapp.antt =====
-- Assignment02: notapp, whose server shows the file events of its observer clients to its user
-- clients.
pub mod Args
pub mod ServerData
pub mod Server
pub mod Wire
pub mod UserClient
pub mod UserThread
pub mod Message
pub mod ObserverClient
pub mod EventText
pub mod ObserverThread
pub mod Daemon
pub mod DoServer
pub mod Main
pub mod Journey
mod Tests
