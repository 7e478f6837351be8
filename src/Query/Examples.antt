-- ===== src/Query/Examples.antt =====
-- Budgets at concrete numbers.
use dtgproxy.Base.{arith}
use dtgproxy.Query.Budget.{QueryBudget, query_context}
use dtgproxy.Query.Budget.Limits.{IsWithin, of_memory, perform, perform-IsWithin}

abbrev small : QueryBudget
small = record {
  max_rows = 10;
  max_scan_bytes = 100;
  max_memory_bytes = 50;
  max_network_bytes = 20;
  max_spill_bytes = 0;
  deadline_at = 1000;
}

IsWithin-example : IsWithin (perform (query_context small) (of_memory 60)).0
IsWithin-example =
    perform-IsWithin (query_context small) (of_memory 60)
      (omega arith, omega arith, omega arith, omega arith, omega arith)
