-- ===== src/Bridge.antt =====
-- .opencode/plugins/soren-bridge.ts: the plugin that connects an agent to the server. Its write
-- guards, role contracts, delivery to the server, reasoning buffer and end-of-turn report are
-- modules below this one.
pub mod Regex
pub mod Settings
pub mod Contracts
pub mod Guard
pub mod Delivery
pub mod Reasoning
pub mod Turn
pub mod Hooks
mod Tests
