-- ===== src/Payment.antt =====
-- examples/nestjs/src/app.service.ts: `AppService`, which handles a payment as a workflow of three tasks,
-- and `createPayment` of examples/nestjs/src/example/example.service.ts.
-- The file system, the source of random names and `JSON.stringify` are parameters.
pub mod Failure
use idempotent_transformer.Common.{ℕ, ◌*◌, String, Bool, true, Option, none, some}
use Prim.Native.String.{◌++◌}
use idempotent_transformer.Async.{Outcome, done, thrown, running, Thrown, Async, pure, ◌>>=◌, ◌>>◌}
use idempotent_transformer.Runner.{
  Returned, object, WorkflowOptions, Host, Workflow, Session, start_workflow, complete,
  generate_idempotency_key,
}
use idempotent_transformer.Execute.{Task, execute}

-- The values of the three tasks, and the object that a promise is.
pub data Value : Type 0 where
  string : String → Value
  boolean : Bool → Value
  promise_object : Value

pub record PaymentData : Type 0 where
  pub item_id : String
  pub amount : ℕ

-- What the service calls: `appendFile` and `readFile`, the random name, and `JSON.stringify` of the data
-- with the reference.
pub record Platform (E : Type 0) : Type 0 where
  pub append_file : (path content : String) → Async E (Unit {0})
  pub read_file : (path : String) → Async E String
  pub random_name : Async E String
  pub stringify : PaymentData → Value → String

abbrev pub get_path : String → String
get_path item_id = "public/" ++ item_id ++ ".json"

-- An asynchronous function, called as a task: it returns a promise.
abbrev pub promised : {E : Type 0} → Async E Value → Task E Value
promised m = pure (object (some m) promise_object)

module _ {E : Type 0} (h : Host E Value) (platform : Platform E) where
  abbrev pub save_payment : (item_id content : String) → Async E Value
  save_payment item_id data_ = platform.append_file (get_path item_id) data_ >> pure (boolean true)

  abbrev pub read_payment : (item_id : String) → Async E Value
  read_payment item_id = platform.read_file (get_path item_id) >>= λ content. pure (string content)

  -- The payment's reference, after a second.
  abbrev pub create_payment : Async E Value
  create_payment =
      h.set_timeout (1000 * 10) >> (platform.random_name >>= λ name. pure (string name))

  -- `handlePayment` with its runner; the loops of each task have the same fuel.
  unfoldable pub pay : ℕ → PaymentData → Workflow → Async (Session E) Value
  pay fuel payment w = do
    key ← generate_idempotency_key h w
    reference_id ← execute h w fuel key (promised create_payment) none
    execute h w fuel "Save payment"
        (promised (save_payment payment.item_id (platform.stringify payment reference_id))) none
    result ← execute h w fuel "Get payment" (promised (read_payment payment.item_id)) none
    complete h w
    pure result

  abbrev pub payment_options : WorkflowOptions
  payment_options = record {
    completed_retention_time = some 60000;
    name = some "Example Existing Workflow";
  }

  -- What follows `startWorkflow`, by how that ended.
  abbrev pub continue_payment :
      ℕ → PaymentData → Outcome Workflow → Session E → Outcome Value × Session E
  continue_payment fuel payment (done w) s = pay fuel payment w s
  continue_payment fuel payment (thrown err) s = (thrown err, s)
  continue_payment fuel payment running s = (running, s)

  unfoldable pub handle_payment : ℕ → String → PaymentData → E → Outcome Value × Session E
  handle_payment fuel action_id payment e =
      let (o, s) = start_workflow h action_id payment_options e in continue_payment fuel payment o s
