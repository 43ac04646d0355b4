-- ===== src/ChargeCore.antt =====
-- contracts/subscription_vault/src/charge_core.rs: one charge of one subscription, with no
-- authorization of its own.
pub mod Guards
pub mod Period
pub mod Fees
pub mod Interval
pub mod Usage
pub mod Batch
