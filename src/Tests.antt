-- ===== src/Tests.antt =====
-- Runs of the models at small inputs, and every theorem with conditions at an input that meets them.
mod Data
mod ClientData
mod Buffers
mod Shutdowns
mod Inputs
mod Assets
mod Callbacks
mod Sockets
mod Sessions
mod Loops
mod Crypto
mod Keys
mod Whole
mod Worlds
mod Consoles
