-- ===== src/Tests.antt =====
-- Runs of the definitions on a small vault, and one use of each theorem there.
mod Fixtures
mod Charges
mod Usage
mod Funds
mod Plans
mod Pages
mod Metadata
mod Rules
