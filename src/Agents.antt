-- ===== src/Agents.antt =====
-- The agents crate: several MCP services behind one server, and services on shared listeners.
pub mod Combine
pub mod Placement
