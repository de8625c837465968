-- ===== src/Stores.antt =====
-- src/frontend/src/stores: the client's stores. Each is a record, and each action a function from
-- the state before to the state after.
pub mod Layout
pub mod Terminal
pub mod Activities
pub mod AgentEvents
pub mod Thoughts
pub mod Agents
mod Tests
