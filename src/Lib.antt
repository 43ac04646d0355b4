-- ===== src/Lib.antt =====
-- The subscription vault of contracts/subscription_vault/src: a Soroban contract in which
-- subscribers lock a prepaid balance for a merchant, the merchant charges it period by period, and
-- both draw their money out again. The development models the contract's calls as functions on its
-- whole storage and proves what they keep.
--
-- How a call is modelled. Host.State holds the storage, one field for each storage key, with the
-- balances of the token contracts and the published events. A call (Host.Calls) takes a state and
-- returns a value, an error or a trap with the state it reached; what was written before an error is
-- kept, as `batch_charge` keeps it, and `invoke` is the host's call of an entry point, which keeps
-- nothing of a call that fails. Host.Outcomes has the rules by which properties of calls compose.
-- The token contracts, the authorizations, the clock and the oracle's answer are not part of the
-- repository: they are the fields of `Env`, a parameter of every call that uses them.
--
-- Which file models which part, by the source file's name:
--   types.rs            Types/Errors, Types/Records, Types/Events, Host/State (DataKey)
--   safe_math.rs        SafeMath, SafeMath/Bounds
--   state_machine.rs    StateMachine, StateMachine/Transitions
--   nonce.rs            Nonce, Nonce/Replay
--   accounting.rs       Accounting, and Books for the sum that the total stands for
--   blocklist.rs        Blocklist, Blocklist/Calls, Blocklist/Refusals, Blocklist/Rights
--   admin.rs            Admin, Admin/Operations, Admin/Bounds, ChargeCore/Batch
--   merchant.rs         Merchant, Merchant/Credit, Merchant/Config, Merchant/Reconciliation,
--                       Merchant/Drift
--   oracle.rs           Oracle
--   statements.rs       Statements, Statements/Rows, Statements/Pages, Statements/Compaction and
--                       their children
--   period_snapshots.rs PeriodSnapshots, PeriodSnapshots/Closed
--   queries.rs          Store (get_subscription), Queries, Queries/Pages
--   charge_core.rs      ChargeCore and its children: ChargeCore/Interval for `charge_one` and
--                       ChargeCore/Usage for `charge_usage_one`, one function for each step
--   subscription.rs     Subscription and its children, Subscription/Plans for the plan templates
--   metadata.rs         Metadata, Metadata/Keys, Metadata/Indexed
--   reentrancy.rs       Host/Calls (lock, unlock, guarded)
--   lib.rs              Vault, Vault/Guards, Vault/Entries, Vault/Usage
-- Solvency compares `TotalAccounted` with what is owed, WellFormed has the invariant of the stored
-- subscriptions; the Reachable module of each follows them through sequences of calls. Tests runs
-- the definitions on a small vault.
--
-- Numbers. Amounts are integers with the checked, saturating and wrapping operations of `i128`
-- (Prelude/Width); the release profile leaves overflow checks off, so a plain `*` wraps, as in the
-- fee. Times and counters are natural numbers with the checked operations of `u64` and `u32`.
-- Addresses, idempotency keys and template keys are only compared, so they are numbers. The loops of
-- the source run over ids or sequence numbers, so each is a structural recursion on how many are left
-- and needs no fuel. Only the clients that page through a listing have fuel, the number of pages they
-- ask for, and the theorems on them say how many are enough.
--
-- Not modelled: the statements per billing period (billing_statements.rs), the second contract in
-- migration.rs, and the entry points of lib.rs that only pass their arguments on.
-- `Error::NonceAlreadyUsed` and `DataKey::AdminNonce` are modelled as nonce.rs uses them, though
-- types.rs does not declare them, and of the two definitions of `do_charge_one_off` the first is
-- modelled. The oracle is modelled with the `oracle-pricing` feature on.
pub mod Prelude
pub mod Types
pub mod Host
pub mod SafeMath
pub mod StateMachine
pub mod Accounting
pub mod Nonce
pub mod Blocklist
pub mod PeriodSnapshots
pub mod Queries
pub mod Admin
pub mod Merchant
pub mod Store
pub mod Books
pub mod Oracle
pub mod Statements
pub mod ChargeCore
pub mod Subscription
pub mod Metadata
pub mod Solvency
pub mod WellFormed
pub mod Vault
pub mod Tests
