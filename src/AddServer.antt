-- ===== src/AddServer.antt =====
-- examples/add_server: the server and the client that add two numbers, and the callback by which
-- examples/multi_client differs.
pub mod State
pub mod Callbacks
pub mod Sharing
pub mod Memory
pub mod Rounds
pub mod Client
pub mod Protocol
pub mod Threads
pub mod Together
pub mod Descriptors
