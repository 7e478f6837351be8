-- ===== src/Query/Budget.antt =====
-- crates/execution/dtg-query/src/budget.rs
pub mod Limits
use dtgproxy.Base.{
  ℕ, ◌+◌, ◌-◌, Bool, true, false, ltb, String, Result, ok, err, ◌>>=◌, ◌>>◌, reject, ok_or,
  checked_add, u64_max,
}

pub data QueryError : Type 0 where
  invalid_batch invalid_plan : String → QueryError
  row_budget scan_budget memory_budget network_budget spill_budget : QueryError
  cancelled deadline snapshot_drift capability_drift : QueryError
  missing_storage : ℕ → QueryError
  missing_pushdown : QueryError
  provider_violation unsupported storage : String → QueryError

-- An `Instant` is a number of ticks.
pub record QueryBudget : Type 0 where
  pub max_rows : ℕ
  pub max_scan_bytes : ℕ
  pub max_memory_bytes : ℕ
  pub max_network_bytes : ℕ
  pub max_spill_bytes : ℕ
  pub deadline_at : ℕ

-- The token is shared with whoever cancels: `checkpoint` is given what it reads in it.
pub record QueryContext : Type 0 where
  pub budget : QueryBudget
  pub rows : ℕ
  pub scan_bytes : ℕ
  pub memory_bytes : ℕ
  pub network_bytes : ℕ
  pub spill_bytes : ℕ

-- `QueryContext::new`
abbrev pub query_context : QueryBudget → QueryContext
query_context budget = record {
  budget = budget;
  rows = 0;
  scan_bytes = 0;
  memory_bytes = 0;
  network_bytes = 0;
  spill_bytes = 0;
}

-- `cancelled` is what the token holds and `now` is the time.
unfoldable pub checkpoint : Bool → ℕ → QueryContext → Result QueryError (Unit {0})
checkpoint is_cancelled now context = do
  reject is_cancelled cancelled
  reject (ltb context.budget.deadline_at now) deadline

abbrev pub remaining_rows : QueryContext → ℕ
remaining_rows context = context.budget.max_rows - context.rows

unfoldable pub charge : ℕ → ℕ → ℕ → QueryError → Result QueryError ℕ
charge current amount maximum error = do
  charged ← ok_or (checked_add u64_max current amount) error
  reject (ltb maximum charged) error
  ok charged

-- A method that fails has not assigned: the context it leaves is the one that it found.
abbrev assign :
    QueryContext
    → (ℕ → QueryContext)
    → Result QueryError ℕ
    → QueryContext × Result QueryError (Unit {0})
assign context update (ok charged) = (update charged, ok tt)
assign context update (err e) = (context, err e)

unfoldable pub charge_rows : QueryContext → ℕ → QueryContext × Result QueryError (Unit {0})
unfolding charge
charge_rows context amount =
    assign context (λ n. record context { rows = n })
      (charge context.rows amount context.budget.max_rows row_budget)

unfoldable pub charge_scan_bytes : QueryContext → ℕ → QueryContext × Result QueryError (Unit {0})
unfolding charge
charge_scan_bytes context amount =
    assign context (λ n. record context { scan_bytes = n })
      (charge context.scan_bytes amount context.budget.max_scan_bytes scan_budget)

unfoldable pub charge_memory : QueryContext → ℕ → QueryContext × Result QueryError (Unit {0})
unfolding charge
charge_memory context amount =
    assign context (λ n. record context { memory_bytes = n })
      (charge context.memory_bytes amount context.budget.max_memory_bytes memory_budget)

unfoldable pub release_memory : QueryContext → ℕ → QueryContext
release_memory context amount = record context { memory_bytes = context.memory_bytes - amount }

unfoldable pub charge_network : QueryContext → ℕ → QueryContext × Result QueryError (Unit {0})
unfolding charge
charge_network context amount =
    assign context (λ n. record context { network_bytes = n })
      (charge context.network_bytes amount context.budget.max_network_bytes network_budget)

unfoldable pub charge_spill : QueryContext → ℕ → QueryContext × Result QueryError (Unit {0})
unfolding charge
charge_spill context amount =
    assign context (λ n. record context { spill_bytes = n })
      (charge context.spill_bytes amount context.budget.max_spill_bytes spill_budget)
