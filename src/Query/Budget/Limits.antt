-- ===== src/Query/Budget/Limits.antt =====
-- A query stays within its budget.
use dtgproxy.Base.{ℕ, ◌≡◌, ◌≤◌, arith, Result, ok, err}
use dtgproxy.Query.Budget.{
  QueryError, QueryContext, charge, charge_rows, charge_scan_bytes, charge_memory, release_memory,
  charge_network, charge_spill,
}

abbrev pub IsWithin : QueryContext → Type 0
IsWithin c =
    (c.rows ≤ c.budget.max_rows)
    × (c.scan_bytes ≤ c.budget.max_scan_bytes)
    × (c.memory_bytes ≤ c.budget.max_memory_bytes)
    × (c.network_bytes ≤ c.budget.max_network_bytes)
    × (c.spill_bytes ≤ c.budget.max_spill_bytes)

pub data Charge : Type 0 where
  of_rows of_scan of_memory of_network of_spill back_memory : ℕ → Charge

abbrev pub perform : QueryContext → Charge → QueryContext × Result QueryError (Unit {0})
perform c (of_rows n) = charge_rows c n
perform c (of_scan n) = charge_scan_bytes c n
perform c (of_memory n) = charge_memory c n
perform c (of_network n) = charge_network c n
perform c (of_spill n) = charge_spill c n
perform c (back_memory n) = (release_memory c n, ok tt)

-- A query that is within its budget is so after every charge, also one that is refused, and after
-- every release.
pub perform-IsWithin : (c : QueryContext) (o : Charge) → IsWithin c → IsWithin (perform c o).0
unfolding charge_rows charge_scan_bytes charge_memory charge_network charge_spill release_memory
    charge
perform-IsWithin c (of_rows n) w = ground arith
perform-IsWithin c (of_scan n) w = ground arith
perform-IsWithin c (of_memory n) w = ground arith
perform-IsWithin c (of_network n) w = ground arith
perform-IsWithin c (of_spill n) w = ground arith
perform-IsWithin c (back_memory n) w = ground arith

-- A charge that is refused leaves the context as it was.
pub refused_charge-unchanged :
    (c : QueryContext) (o : Charge) (e : QueryError) → (perform c o).1 ≡ err e → (perform c o).0 ≡ c
unfolding charge_rows charge_scan_bytes charge_memory charge_network charge_spill release_memory
    charge
refused_charge-unchanged c (of_rows n) e h = ground arith
refused_charge-unchanged c (of_scan n) e h = ground arith
refused_charge-unchanged c (of_memory n) e h = ground arith
refused_charge-unchanged c (of_network n) e h = ground arith
refused_charge-unchanged c (of_spill n) e h = ground arith
refused_charge-unchanged c (back_memory n) e h = cc
