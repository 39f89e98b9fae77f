-- ===== src/Broker.antt =====
-- native/src/broker.rs: calls, connections, catalogues, the effect journal with its durable copy, and
-- the budgets of what a peer sends.
pub mod Journal
pub mod Reload
pub mod Writer
pub mod Budget
pub mod Framing
pub mod Failures
pub mod Transports
pub mod Catalogue
pub mod Validate
pub mod Call
pub mod Answer
pub mod Explain
