-- ===== src/Subscription.antt =====
-- contracts/subscription_vault/src/subscription.rs: the life of a subscription and its funds.
pub mod Limits
pub mod Create
pub mod Funds
pub mod Lifecycle
pub mod Moves
pub mod OneOff
pub mod Plans
pub mod Withdrawable
