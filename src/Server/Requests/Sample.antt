-- ===== src/Server/Requests/Sample.antt =====
-- A small server: its libraries, and its state with one workflow.
use idempotent_transformer.Common.{
  ℕ, ◌*◌, String, not, none, some, [], ◌∷◌, ltb, ◌==◌, ◌&&◌, str_eq, if◌then◌else◌, arith,
}
use idempotent_transformer.Rpc.{LeaseCheckpointInput}
use idempotent_transformer.Server.{WorkflowStatus, WorkflowRow, Database, Libraries}
use idempotent_transformer.Server.Requests.Leases.{Retains}

abbrev pub libraries : Libraries
libraries = record { uuid = λ n. "2f1c"; evicted = λ ttl age. not (ltb age (1000 * ttl)) }

pub libraries-Retains : Retains libraries
libraries-Retains ttl age h = ground arith

abbrev pub running_row : WorkflowRow
running_row = record {
  status = WorkflowStatus.running;
  expire_at = none;
  completed_at = none;
  name = none;
  created_at = 0;
}

-- The workflow "w" with the token 2, and nothing else.
abbrev pub started : Database
started = record {
  now = 100;
  uuids = 0;
  workflows = λ id. if str_eq id "w" then some running_row else none;
  fencing_tokens = λ id. if str_eq id "w" then some 2 else none;
  checkpoints = λ id p. none;
  leases = λ id p. none;
}

-- The same with a result at the first position.
abbrev pub with_result : Database
with_result = record started {
  checkpoints = λ id p.
      if str_eq id "w" && (p == 0)
      then some (record { idempotency_key = "a"; value = some (4 ∷ []); created_at = 50 })
      else none;
}

abbrev pub lease_as : (token : ℕ) → (key : String) → LeaseCheckpointInput
lease_as token key = record {
  workflow_id = "w";
  fencing_token = token;
  lease_timeout = 30000;
  position = 0;
  idempotency_key = key;
}
