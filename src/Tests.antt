-- ===== src/Tests.antt =====
-- Concrete inputs: stores, managers and authorizers on which the theorems are applied.
pub mod Data
pub mod Store
pub mod Manager
pub mod Access
pub mod Plugins
pub mod Async
pub mod Token
