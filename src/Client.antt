-- ===== src/Client.antt =====
-- NECROClient/Client/Online: the client's side of the authentication.
pub mod Session
pub mod Manager
