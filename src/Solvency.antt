-- ===== src/Solvency.antt =====
-- `TotalAccounted` against the sum that it stands for: the prepaid balances of the subscriptions
-- and the balances of the merchants.
pub mod Steps
pub mod Standing
pub mod Creations
pub mod Inflows
pub mod Payouts
pub mod Charges
pub mod Usage
pub mod Reachable
