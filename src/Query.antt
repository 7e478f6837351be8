-- ===== src/Query.antt =====
-- crates/execution/dtg-query/src
pub mod Budget
mod Examples
