-- ===== src/Statements/Rows.antt =====
-- What `append_statement` adds to the rows of a subscription.
use stellabill_contracts.Prelude.{
  ℕ, ◌+◌, ℤ, pos, ◌<ℤ◌, int_laws, ◌≡◌, ◌≤◌, some, ◌==◌, nat_eq, pair_eq, get, get-set, get-set_self,
  if◌then◌else◌,
}
use stellabill_contracts.Types.Records.{Address, BillingStatement, BillingChargeKind}
use stellabill_contracts.Host.State.{State, Env}
use stellabill_contracts.Host.Calls.{ok}
use stellabill_contracts.Statements.{
  append_statement, get_next_sequence, get_total_statements, put_statement, set_counters,
}

-- The row that a charge appends.
abbrev pub statement_row : ℕ → ℕ → ℕ → ℕ → ℕ → ℤ → Address → BillingChargeKind → BillingStatement
statement_row id sequence now period_start period_end amount merchant kind = record {
  subscription_id = id;
  sequence = sequence;
  charged_at = now;
  period_start = period_start;
  period_end = period_end;
  amount = amount;
  merchant = merchant;
  kind = kind;
}

module _ {L : Type 0} (env : Env L) where
  -- The state after a statement is appended: the counters are one higher, the new row stands at the
  -- old counter, and every other row is unchanged.
  pub record Appended (id : ℕ) (row : BillingStatement) (s u : State L) : Type 0 where
    pub next : get_next_sequence u id ≡ get_next_sequence s id + 1
    pub live : get_total_statements u id ≡ get_total_statements s id + 1
    pub rows :
        (key : ℕ × ℕ)
        → get u.billing.statement_rows key ≡ (
            if (id, get_next_sequence s id) == key
            then some row
            else get s.billing.statement_rows key)

  -- A statement that is appended is of a positive amount and of a period that does not end before
  -- it starts; it gets the next sequence number, both counters rise by one and no other row
  -- changes.
  pub append_statement-Appended :
      (id : ℕ) (amount : ℤ) (merchant : Address) (kind : BillingChargeKind)
      (period_start period_end : ℕ) (s u : State L)
      → append_statement env id amount merchant kind period_start period_end s ≡ (ok tt, u)
      → (pos 0 <ℤ amount)
        × (period_start ≤ period_end)
        × Appended id
            (statement_row id
              (get_next_sequence s id)
              env.timestamp
              period_start
              period_end
              amount
              merchant
              kind)
            s
            u
  unfolding append_statement get_next_sequence get_total_statements put_statement set_counters
  append_statement-Appended id amount merchant kind period_start period_end s u h =
      grind (int_laws, get-set, get-set_self)
