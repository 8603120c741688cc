-- ===== src/Overhead.antt =====
-- overhead_tests: the workflows whose overhead is measured, as programs over the transformer that they
-- build.
pub mod SameWorkflow
pub mod DifferentWorkflow
mod Tests
use idempotent_transformer.Common.{ℕ, ◌+◌, Bool, true, false}

-- What `events.emit` has counted.
pub record Counters : Type 0 where
  pub success : ℕ
  pub fail : ℕ

abbrev pub one_more_success : Counters → Counters
one_more_success c = record c { success = c.success + 1 }

abbrev pub one_more_fail : Counters → Counters
one_more_fail c = record c { fail = c.fail + 1 }
