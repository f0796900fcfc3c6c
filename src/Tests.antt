-- ===== src/Tests.antt =====
-- The theorems at concrete inputs, and runs of the definitions, one module for each part.
mod Wire
mod Lifecycle
mod Host
mod Loops
mod Launch
mod Sockets
mod Logs
mod Configs
mod Policy
mod Watchers
mod Boards
mod Crews
mod Calls
mod Streams
mod Platform
