-- ===== src/Execute/Sample.antt =====
-- A small world to run the runner in: a clock, and a server that stores results by their position.
use idempotent_transformer.Common.{
  ℕ, suc, ◌+◌, String, false, Option, none, some, List, [], ◌∷◌, ◌==◌, str_eq, if◌then◌else◌,
}
use idempotent_transformer.Async.{Thrown, error, Outcome, done, thrown}
use idempotent_transformer.Rpc.{
  Serialized, text, bytes, code_text, non_deterministic_checkpoint_found, fencing_token_not_found,
  CheckpointInput, LeaseCheckpointOutput, RpcAdapter,
}
use idempotent_transformer.Runner.{primitive, object, OnAbort, TaskOptions, Host, Workflow, Session}
use idempotent_transformer.Trace.{Logged}
use idempotent_transformer.Execute.{Task}

pub record World : Type 0 where
  pub clock : ℕ
  pub stored : ℕ → Option (String × List ℕ)

abbrev pub nothing : World
nothing = record { clock = 0; stored = λ p. none }

abbrev pub code_error : String → Thrown
code_error code = error "Error" code

abbrev pub lease_of : Option (String × List ℕ) → String → Outcome LeaseCheckpointOutput
lease_of none key = done (record { value = none; remaining_lease_timeout = none })
lease_of (some (k, v)) key =
    if str_eq k key
    then done (record { value = some (bytes v); remaining_lease_timeout = none })
    else thrown (code_error (code_text non_deterministic_checkpoint_found))

-- The bytes of a result.
abbrev pub raw : Serialized → List ℕ
raw (bytes b) = b
raw (text s) = []

abbrev pub stored_at : CheckpointInput → World → World
stored_at i e = record {
  clock = suc e.clock;
  stored = λ p. if i.position == p then some (i.idempotency_key, raw i.value) else e.stored p;
}

abbrev pub decode : List ℕ → ℕ
decode (b ∷ rest) = b
decode [] = 0

abbrev pub server : RpcAdapter World
server = record {
  start_workflow = λ i e. (done (record { fencing_token = 1 }), e);
  checkpoint = λ i e. (done (record { abort = false }), stored_at i e);
  lease_checkpoint = λ i e. (lease_of (e.stored i.position) i.idempotency_key, e);
  complete_workflow = λ i e. (done tt, e);
  get_workflow_status = λ i e. (thrown (code_error "workflow_not_found"), e);
  release_lease_checkpoint = λ i e. (done tt, e);
  generate_idempotency_key = λ i e. (done (record { idempotency_key = "key" }), e);
}

abbrev pub host : Host World ℕ
host = record {
  rpc_adapter = server;
  serializer = record {
    serialize = λ r e. (done (bytes (r ∷ [])), e);
    deserialize = λ v e. (done (decode (raw v)), e);
  };
  date_now = λ e. (done e.clock, e);
  set_timeout = λ tenths e. (done tt, record e { clock = suc e.clock });
}

-- A server that knows no token.
abbrev pub forgetful : Host World ℕ
forgetful = record host {
  rpc_adapter = record server {
    lease_checkpoint = λ i e. (thrown (code_error (code_text fencing_token_not_found)), e);
  };
}

abbrev pub workflow : Workflow
workflow = record { workflow_id = "w"; fencing_token = 1; completed_retention_time = none }

abbrev pub failure : Thrown
failure = error "Error" "failed"

-- Tasks: an asynchronous one that returns 7, one that is rejected, one that throws at once, and one
-- that takes a minute.
abbrev pub seven : Task World ℕ
seven e = (done (object (some (λ e'. (done 7, e'))) 0), e)

abbrev pub rejecting : Task World ℕ
rejecting e = (done (object (some (λ e'. (thrown failure, e'))) 0), e)

abbrev pub throwing : Task World ℕ
throwing e = (thrown failure, e)

abbrev pub slow : Task World ℕ
slow e = (done (primitive 9), record e { clock = e.clock + 60000 })

-- An `onAbort` whose function throws at once, twice.
abbrev pub undoing : OnAbort World ℕ
undoing = record {
  function = λ result e. (thrown failure, e);
  retry_count = some 2;
  retry_delay = none;
}

abbrev pub short_lease : Option (TaskOptions World ℕ)
short_lease = some (record { lease_timeout = some 10; on_abort = some undoing })

abbrev pub session : World → Session World
session e = record { position = 0; env = e }

abbrev pub fresh : Session (Logged World ℕ)
fresh = record { position = 0; env = record { env = nothing; log = [] } }
