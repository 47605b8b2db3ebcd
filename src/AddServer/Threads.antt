-- ===== src/AddServer/Threads.antt =====
-- The threads of the example server, whose contexts start as copies of one.
pub mod Changes
pub mod Evaluation
pub mod Shape
pub mod Separation
pub mod Frame
pub mod Others
pub mod Table
pub mod Standing
pub mod Turns
pub mod Served
pub mod Start
pub mod Among
pub mod Sum
