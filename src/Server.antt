-- ===== src/Server.antt =====
-- NECROAuth/Server: the authentication server.
pub mod Session
pub mod Proof
pub mod Owners
pub mod Read
pub mod Poll
pub mod Main
