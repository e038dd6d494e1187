-- ===== src/Parallel.antt =====
-- The slots of parallel runs: packages/brewva-runtime/src/parallel/budget.ts.
pub mod Budget
pub mod Security
pub mod Results
pub mod Service
mod Tests
