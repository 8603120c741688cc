-- ===== src/Execute/Options.antt =====
-- The options of a task, as its logged host gets them: the lease lasts as long, and `onAbort` is there
-- exactly where it was.
use idempotent_transformer.Common.{◌≡◌, refl, Option, none, some}
use idempotent_transformer.Runner.{TaskOptions}
use idempotent_transformer.Trace.{logged_abort, logged_task_options}
use idempotent_transformer.Execute.{lease_timeout_of, on_abort_of}

pub timeout-logged :
    {E R : Type 0} (options : Option (TaskOptions E R))
    → lease_timeout_of (logged_task_options options) ≡ lease_timeout_of options
timeout-logged none = refl
timeout-logged (some o) = refl

pub abort-logged :
    {E R : Type 0} (options : Option (TaskOptions E R))
    → on_abort_of (logged_task_options options) ≡ logged_abort (on_abort_of options)
abort-logged none = refl
abort-logged (some o) = refl
