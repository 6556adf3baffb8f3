-- ===== src/Server.antt =====
-- The chat server: server/Service.cc and the handlers of server/handler.
pub mod Services
pub mod World
pub mod Chat
pub mod Friend
pub mod Group
pub mod Online
pub mod Login
pub mod Transfer
pub mod Register
pub mod Sql
pub mod Removal
pub mod Dispatch
pub mod Local
mod Tests
