-- ===== src/Protocol.antt =====
-- The two ends together: the packets of NECROClient/Client/Online/AuthSession.cpp at the server's
-- NECROAuth/Server/Auth/AuthSession.cpp.
pub mod Greeting
pub mod Login
pub mod Keys
pub mod Run
