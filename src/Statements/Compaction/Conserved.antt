-- ===== src/Statements/Compaction/Conserved.antt =====
-- What a compaction of statements.rs keeps: the amounts billed, in the rows or in the aggregate.
use stellabill_contracts.Prelude.{
  ℕ, zero, suc, ◌-◌, ◌≤◌, ◌<◌, ℤ, pos, ◌≡◌, refl, ◌+ℤ◌, arith, int_laws, false, Option, none, some,
  not, ◌==◌, ◌||◌, nat_eq, pair_eq, pair_beq, ◌∙◌, ap, ◌⊎◌, get, remove, get-remove, get-set_self,
  ltb, leb, beq_ℤ, unwrap_or, Bool-cases, inl, inr,
}
use stellabill_contracts.Types.Errors.{Error}
use stellabill_contracts.Types.Records.{
  BillingStatement, BillingStatementAggregate, BillingCompactionSummary, AccruedTotals,
}
use stellabill_contracts.Host.State.{State}
use stellabill_contracts.Host.Calls.{ok}
use stellabill_contracts.Host.Outcomes.{
  Yields, lift-Yields, fail_if-Yields, step-Yields, weaken, Yields-ok,
}
use stellabill_contracts.SafeMath.{safe_add}
use stellabill_contracts.SafeMath.Bounds.{safe_add-ok}
use stellabill_contracts.Statements.{get_next_sequence, get_total_statements}
use stellabill_contracts.Statements.Compaction.{
  Pruning, no_pruning, earlier, later, add_to_kind, sum_of_kinds, extend_aggregate,
  get_retention_config, get_compacted_aggregate, remove_row, set_aggregate, set_live_count,
  prune_row, prune_rows, compact_oldest, compact_subscription_statements,
}

abbrev pub amount_of : Option BillingStatement → ℤ
amount_of none = pos 0
amount_of (some row) = row.amount

join_totals :
    (a b c first_t first_u rest_t rest_u whole : ℤ)
    → b +ℤ (first_t +ℤ rest_t) ≡ a +ℤ whole
    → c +ℤ rest_u ≡ b +ℤ rest_t
    → first_u ≡ first_t
    → c +ℤ (first_u +ℤ rest_u) ≡ a +ℤ whole
join_totals a b c first_t first_u rest_t rest_u whole p q e = grind int_laws

final_total :
    (run billed_t billed_s billed_u : ℤ) (old mid last : BillingStatementAggregate)
    {extended : BillingStatementAggregate}
    → run +ℤ billed_t ≡ pos 0 +ℤ billed_s
    → extended.total_amount ≡ mid.total_amount +ℤ run
    → mid ≡ old
    → last ≡ extended
    → billed_u ≡ billed_t
    → last.total_amount +ℤ billed_u ≡ old.total_amount +ℤ billed_s
final_total run billed_t billed_s billed_u old mid last p q e f g = grind int_laws

extend_aggregate-total :
    (aggregate : BillingStatementAggregate) (run : Pruning) {extended : BillingStatementAggregate}
    → extend_aggregate aggregate run ≡ ok extended
    → extended.total_amount ≡ aggregate.total_amount +ℤ run.amount
unfolding extend_aggregate
extend_aggregate-total aggregate run e =
    grind (arith, safe_add-ok aggregate.total_amount run.amount)

module _ {L : Type 0} where
  -- The amounts of the rows at `n` numbers from `seq` on.
  unfoldable pub billed : State L → (id n seq : ℕ) → ℤ
  billed s id zero seq = pos 0
  billed s id (suc n) seq =
      amount_of (get s.billing.statement_rows (id, seq)) +ℤ billed s id n (suc seq)

  billed-remove_row :
      (s : State L) (id at n seq : ℕ)
      → at < seq
      → billed (remove_row id at s) id n seq ≡ billed s id n seq
  unfolding billed remove_row
  billed-remove_row s id at zero seq h = refl
  billed-remove_row s id at (suc n) seq h =
      let row : get (remove s.billing.statement_rows (id, at)) (id, seq)
          ≡ get s.billing.statement_rows (id, seq) =
        ground (arith, get-remove s.billing.statement_rows (id, at) (id, seq)) in
      ground (arith, row, billed-remove_row s id at n (suc seq) (omega arith))

  removed_row :
      (s : State L) (id seq : ℕ) → get (remove_row id seq s).billing.statement_rows (id, seq) ≡ none
  unfolding remove_row
  removed_row s id seq = ground (arith, get-remove s.billing.statement_rows (id, seq) (id, seq))

  same_aggregates :
      (s : State L) (id seq : ℕ) → (remove_row id seq s).billing.aggregates ≡ s.billing.aggregates
  unfolding remove_row
  same_aggregates s id seq = refl

  kept_row :
      (s : State L) (id seq other at : ℕ)
      → (pair_beq (id, seq) (other, at)) ≡ false
      → get (remove_row id seq s).billing.statement_rows (other, at)
        ≡ get s.billing.statement_rows (other, at)
  unfolding remove_row
  kept_row s id seq other at h =
      ground (arith, h, get-remove s.billing.statement_rows (id, seq) (other, at))

  -- What a round, or the rounds, leave: the amounts from `seq` on, in the run or in the rows.
  record Pruned (id n seq target : ℕ) (before : Pruning) (s : State L) (after : Pruning)
      (u : State L) : Type 0 where
    total : after.amount +ℤ billed u id n seq ≡ before.amount +ℤ billed s id n seq
    below :
        (at : ℕ)
        → at < seq
        → get u.billing.statement_rows (id, at) ≡ get s.billing.statement_rows (id, at)
    others :
        (other at : ℕ)
        → (other == id) ≡ false
        → get u.billing.statement_rows (other, at) ≡ get s.billing.statement_rows (other, at)
    aggregates : u.billing.aggregates ≡ s.billing.aggregates
    bounded : after.removed ≤ target

  Pruned-refl :
      (id n seq target : ℕ) (run : Pruning) (s : State L)
      → run.removed ≤ target
      → Pruned id n seq target run s run s
  Pruned-refl id n seq target run s h = record {
    total = refl;
    below = λ at _. refl;
    others = λ other at _. refl;
    aggregates = refl;
    bounded = h;
  }

  -- The loop goes on after a round.
  Pruned-trans :
      (id n seq target : ℕ) (a b c : Pruning) (s t u : State L)
      → Pruned id (suc n) seq target a s b t
      → Pruned id n (suc seq) target b t c u
      → Pruned id (suc n) seq target a s c u
  unfolding billed
  Pruned-trans id n seq target a b c s t u p q = record {
    total =
        join_totals a.amount b.amount c.amount _ _ _ _ _ p.total q.total
          (ap amount_of (q.below seq (omega arith)));
    below = λ at h. q.below at (omega arith) ∙ p.below at h;
    others = λ other at h. q.others other at h ∙ p.others other at h;
    aggregates = q.aggregates ∙ p.aggregates;
    bounded = q.bounded;
  }

  removed-Pruned :
      (id n seq target : ℕ) (run : Pruning) (row : BillingStatement) (amount : ℤ)
      (totals : AccruedTotals) (s : State L)
      → run.removed < target
      → get s.billing.statement_rows (id, seq) ≡ some row
      → amount ≡ run.amount +ℤ row.amount
      → Pruned id
          (suc n)
          seq
          target
          run
          s
          (record {
            removed = suc run.removed;
            amount = amount;
            totals = totals;
            oldest = earlier run.oldest row.period_start;
            newest = later run.newest row.period_end;
          })
          (remove_row id seq s)
  unfolding billed
  removed-Pruned id n seq target run row amount totals s h g e =
      let gone : get (remove_row id seq s).billing.statement_rows (id, seq) ≡ none =
        removed_row s id seq in
      record {
        total = grind (int_laws, gone, g, e, billed-remove_row s id seq n (suc seq));
        below = λ at k. kept_row s id seq id at (ground arith);
        others = λ other at k. kept_row s id seq other at (ground arith);
        aggregates = same_aggregates s id seq;
        bounded = omega arith;
      }

  prune_row-Pruned :
      (id n seq target : ℕ) (run : Pruning) (s : State L) (row : Option BillingStatement)
      → run.removed < target
      → get s.billing.statement_rows (id, seq) ≡ row
      → Yields (prune_row id seq row run s) (λ next u. Pruned id (suc n) seq target run s next u)
  unfolding prune_row
  prune_row-Pruned id n seq target run s none h g =
      Pruned-refl id (suc n) seq target run s (omega arith)
  prune_row-Pruned id n seq target run s (some row) h g =
      let Q : Pruning → State L → Type 0 = λ next u. Pruned id (suc n) seq target run s next u in
      lift-Yields (safe_add run.amount row.amount) _ Q s λ amount e.
        lift-Yields (add_to_kind row.kind row.amount run.totals) _ Q s λ totals _.
          removed-Pruned id n seq target run row amount totals s h g
            (safe_add-ok run.amount row.amount e).0

  prune_rows-Pruned :
      (n id seq target : ℕ) (run : Pruning) (s : State L)
      → run.removed ≤ target
      → Yields (prune_rows n id seq target run s) (λ next u. Pruned id n seq target run s next u)
  unfolding prune_rows
  prune_rows-Pruned zero id seq target run s h = Pruned-refl id zero seq target run s h
  prune_rows-Pruned (suc n) id seq target run s h =
      let Q : Pruning → State L → Type 0 = λ next u. Pruned id (suc n) seq target run s next u in
      elim (Bool-cases (ltb run.removed target)) [
        | inl e ↦
            rw (e, prune_rows)
              (step-Yields (prune_row id seq (get s.billing.statement_rows (id, seq)) run) _ Q s Q
                (prune_row-Pruned id n seq target run s _ (ground arith) refl)
                λ next t p.
                  weaken (prune_rows n id (suc seq) target next t)
                    (λ last u. Pruned id n (suc seq) target next t last u) Q
                    (prune_rows-Pruned n id (suc seq) target next t p.bounded)
                    λ last u q. Pruned-trans id n seq target run next last s t u p q)
        | inr e ↦ rw (e, prune_rows) (Pruned-refl id (suc n) seq target run s h)
      ]

  -- The state after a compaction, of which `n` numbers from `seq` on were live.
  pub record Compacted (id keep_recent n seq : ℕ) (s : State L) (summary : BillingCompactionSummary)
      (u : State L) : Type 0 where
    pub total :
        (get_compacted_aggregate u id).total_amount +ℤ billed u id n seq
        ≡ (get_compacted_aggregate s id).total_amount +ℤ billed s id n seq
    pub kept : (summary.pruned_count ≡ 0) ⊎ (keep_recent ≤ summary.kept_count)
    pub live : get_total_statements u id ≡ summary.kept_count
    pub older :
        (at : ℕ)
        → at < seq
        → get u.billing.statement_rows (id, at) ≡ get s.billing.statement_rows (id, at)
    pub others :
        (other at : ℕ)
        → (other == id) ≡ false
        → get u.billing.statement_rows (other, at) ≡ get s.billing.statement_rows (other, at)

  billed-same :
      (s u : State L) (id n seq : ℕ)
      → u.billing.statement_rows ≡ s.billing.statement_rows
      → billed u id n seq ≡ billed s id n seq
  unfolding billed
  billed-same s u id zero seq e = refl
  billed-same s u id (suc n) seq e = ground (arith, e, billed-same s u id n (suc seq) e)

  -- The last writes of a compaction.
  finished : ℕ → BillingStatementAggregate → ℕ → State L → State L
  finished id extended kept t = set_live_count id kept (set_aggregate id extended t)

  finished-aggregate :
      (id kept : ℕ) (extended : BillingStatementAggregate) (t : State L)
      → get_compacted_aggregate (finished id extended kept t) id ≡ extended
  unfolding finished set_live_count set_aggregate get_compacted_aggregate
  finished-aggregate id kept extended t = rw (get-set_self t.billing.aggregates id extended) refl

  finished-live :
      (id kept : ℕ) (extended : BillingStatementAggregate) (t : State L)
      → get_total_statements (finished id extended kept t) id ≡ kept
  unfolding finished set_live_count set_aggregate get_total_statements
  finished-live id kept extended t = rw (get-set_self t.billing.statement_live id kept) refl

  finished-rows :
      (id kept : ℕ) (extended : BillingStatementAggregate) (t : State L)
      → (finished id extended kept t).billing.statement_rows ≡ t.billing.statement_rows
  unfolding finished set_live_count set_aggregate
  finished-rows id kept extended t = refl

  same_aggregate :
      (s t : State L) (id : ℕ)
      → t.billing.aggregates ≡ s.billing.aggregates
      → get_compacted_aggregate t id ≡ get_compacted_aggregate s id
  unfolding get_compacted_aggregate
  same_aggregate s t id e = rw e refl

  compact_oldest-Compacted :
      (id next live keep_recent : ℕ) (s : State L)
      → keep_recent ≤ live
      → Yields
          (compact_oldest id next live (live - keep_recent) s)
          (λ summary u. Compacted id keep_recent (next - (next - live)) (next - live) s summary u)
  unfolding compact_oldest finished
  compact_oldest-Compacted id next live keep_recent s h =
      let n = next - (next - live) in
      let start = next - live in
      let Q : BillingCompactionSummary → State L → Type 0 =
        λ summary u. Compacted id keep_recent n start s summary u in
      step-Yields (prune_rows n id start (live - keep_recent) no_pruning) _ Q s
        (λ run u. Pruned id n start (live - keep_recent) no_pruning s run u)
        (prune_rows-Pruned n id start (live - keep_recent) no_pruning s (omega arith))
        λ run t p. lift-Yields (sum_of_kinds run.totals) _ Q t λ sum _.
          fail_if-Yields (not (beq_ℤ run.amount sum)) Error.underflow _ Q t λ _.
            lift-Yields (extend_aggregate (get_compacted_aggregate t id) run) _ Q t λ extended e.
              let kept = live - run.removed in
              let u = finished id extended kept t in
              let rows = finished-rows id kept extended t in
              record {
                total =
                    final_total _ _ _ _ _ _ _ p.total
                      (extend_aggregate-total (get_compacted_aggregate t id) run e)
                      (same_aggregate s t id p.aggregates) (finished-aggregate id kept extended t)
                      (billed-same t u id n start rows);
                kept = inr (omega (arith, p.bounded));
                live = finished-live id kept extended t;
                older = λ at k. ap (λ m. get m (id, at)) rows ∙ p.below at k;
                others = λ other at k. ap (λ m. get m (other, at)) rows ∙ p.others other at k;
              }

  uncompacted :
      (id keep_recent n seq : ℕ) (s : State L)
      → Compacted id keep_recent n seq s
          (record {
            subscription_id = id;
            pruned_count = 0;
            kept_count = get_total_statements s id;
            total_pruned_amount = pos 0;
          })
          s
  uncompacted id keep_recent n seq s = record {
    total = refl;
    kept = inl refl;
    live = refl;
    older = λ at _. refl;
    others = λ other at _. refl;
  }

  compact-Yields :
      (id : ℕ) (keep_recent_override : Option ℕ) (s : State L)
      → let next = get_next_sequence s id in
        let live = get_total_statements s id in
        Yields (compact_subscription_statements id keep_recent_override s) (
          Compacted id
            (unwrap_or keep_recent_override (get_retention_config s))
            (next - (next - live))
            (next - live)
            s)
  unfolding compact_subscription_statements
  compact-Yields id keep_recent_override s =
      let next = get_next_sequence s id in
      let live = get_total_statements s id in
      let keep_recent = unwrap_or keep_recent_override (get_retention_config s) in
      elim (Bool-cases (leb live keep_recent || live == 0)) [
        | inl e ↦ rw e (uncompacted id keep_recent (next - (next - live)) (next - live) s)
        | inr e ↦ rw e (compact_oldest-Compacted id next live keep_recent s (ground arith))
      ]

  -- A compaction that returns moves amounts from rows to the aggregate and loses none: the
  -- aggregate's total and the amounts of the rows that were live sum up as before. It prunes nothing
  -- or keeps at least as many rows as it was told to, the stored count is the reported one, and
  -- neither older rows nor those of another subscription change.
  pub compact_subscription_statements-Compacted :
      (id : ℕ) (keep_recent_override : Option ℕ) (s u : State L)
      (summary : BillingCompactionSummary)
      → compact_subscription_statements id keep_recent_override s ≡ (ok summary, u)
      → Compacted id
          (unwrap_or keep_recent_override (get_retention_config s))
          (get_next_sequence s id - (get_next_sequence s id - get_total_statements s id))
          (get_next_sequence s id - get_total_statements s id)
          s
          summary
          u
  compact_subscription_statements-Compacted id keep_recent_override s u summary e =
      Yields-ok (compact_subscription_statements id keep_recent_override s)
        (Compacted id (unwrap_or keep_recent_override (get_retention_config s))
          (get_next_sequence s id - (get_next_sequence s id - get_total_statements s id))
          (get_next_sequence s id - get_total_statements s id) s)
        (compact-Yields id keep_recent_override s) e
