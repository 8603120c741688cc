-- ===== src/Server.antt =====
-- server/src/schema, server/src/repositories, server/migrations/1_init.sql: the tables of the workflow
-- server, its cache of leases, and the statements on them.
-- Each table is a function of its primary key, and the cache one of the two parts of its key. That
-- the database or the cache may fail is not modelled; nor is the order of its rows, which no statement
-- reads. What the server takes from libraries is a parameter: fresh identifiers, and when the cache
-- drops an entry.
pub mod Checkpoints
pub mod Workflows
pub mod Interleaving
pub mod Requests
pub mod Rpc
use idempotent_transformer.Common.{
  ℕ, suc, ◌+◌, ◌-◌, ◌/◌, String, Bool, true, false, ◌&&◌, Option, none, some, List, ltb, ◌==◌,
  str_eq, if◌then◌else◌,
}
use idempotent_transformer.Async.{Async, pure, gets, modify, ◌>>=◌, ◌>>◌}

-- `CheckpointValue`, less the position, under which it stands.
pub record CheckpointValue : Type 0 where
  pub idempotency_key : String
  pub value : Option (List ℕ)
  pub created_at : ℕ

pub record LeasedCheckpointValue : Type 0 where
  pub lease_timeout : ℕ
  pub created_at : ℕ

pub data WorkflowStatus : Type 0 where
  running completed : WorkflowStatus

pub record WorkflowRow : Type 0 where
  pub status : WorkflowStatus
  pub expire_at : Option ℕ
  pub completed_at : Option ℕ
  pub name : Option String
  pub created_at : ℕ

-- `now` is the clock, in milliseconds; `uuids` counts the identifiers that were made. An entry of the
-- cache is a lease with its time to live, in seconds.
pub record Database : Type 0 where
  pub now : ℕ
  pub uuids : ℕ
  pub workflows : String → Option WorkflowRow
  pub fencing_tokens : String → Option ℕ
  pub checkpoints : String → ℕ → Option CheckpointValue
  pub leases : String → ℕ → Option (LeasedCheckpointValue × ℕ)

-- `evicted ttl age`: whether the cache has dropped an entry of that age in milliseconds.
pub record Libraries : Type 0 where
  pub uuid : ℕ → String
  pub evicted : ℕ → ℕ → Bool

-- A table with another row under a key, by the upsert of the statements.
abbrev pub with_row : {A : Type 0} → (String → A) → String → A → String → A
with_row rows id row other = if str_eq id other then row else rows other

abbrev pub with_cell : {A : Type 0} → (String → ℕ → A) → String → ℕ → A → String → ℕ → A
with_cell cells id p cell other q = if str_eq id other && (p == q) then cell else cells other q

abbrev pub get_checkpoint : String → ℕ → Async Database (Option CheckpointValue)
get_checkpoint id p = gets (λ d. d.checkpoints id p)

-- `INSERT … ON CONFLICT (workflow_id, position) DO UPDATE SET created_at = $5`
abbrev pub upserted :
    Option CheckpointValue → (key : String) → Option (List ℕ) → (now : ℕ) → CheckpointValue
upserted none key value now = record { idempotency_key = key; value = value; created_at = now }
upserted (some row) key value now = record row { created_at = now }

abbrev pub create_checkpoint : String → Option (List ℕ) → ℕ → String → Async Database (Unit {0})
create_checkpoint id value p key = modify (λ d. record d {
  checkpoints = with_cell d.checkpoints id p (some (upserted (d.checkpoints id p) key value d.now));
})

abbrev pub max : ℕ → ℕ → ℕ
max a b = if ltb a b then b else a

abbrev pub lease_checkpoint : String → ℕ → ℕ → Async Database (Unit {0})
lease_checkpoint id p timeout = modify (λ d. record d {
  leases =
      with_cell d.leases id p
        (some (record { lease_timeout = timeout; created_at = d.now }, max (timeout / 1000) 30));
})

abbrev pub get_workflow_fencing_token : String → Async Database (Option ℕ)
get_workflow_fencing_token id = gets (λ d. d.fencing_tokens id)

-- `INSERT … ON CONFLICT (workflow_id) DO UPDATE SET fencing_token = … + 1 RETURNING fencing_token`
abbrev pub incremented : Option ℕ → ℕ → ℕ
incremented none first = first
incremented (some token) first = token + 1

abbrev pub increment_workflow_fencing_token : String → ℕ → Async Database ℕ
increment_workflow_fencing_token id first d =
    let token = incremented (d.fencing_tokens id) first in
    (pure token) (record d { fencing_tokens = with_row d.fencing_tokens id (some token) })

-- `INSERT … ON CONFLICT (id) DO UPDATE SET name = $4`
abbrev pub named : Option WorkflowRow → Option String → (now : ℕ) → WorkflowRow
named none name now = record {
  status = running;
  expire_at = none;
  completed_at = none;
  name = name;
  created_at = now;
}
named (some row) name now = record row { name = name }

abbrev pub create_or_get_workflow : String → Option String → Async Database (Unit {0})
create_or_get_workflow id name = modify (λ d. record d {
  workflows = with_row d.workflows id (some (named (d.workflows id) name d.now));
})

module _ (lib : Libraries) where
  -- What the cache has under a key.
  abbrev pub cached : Option (LeasedCheckpointValue × ℕ) → (now : ℕ) → Option LeasedCheckpointValue
  cached none now = none
  cached (some (lease, ttl)) now =
      if lib.evicted ttl (now - lease.created_at) then none else some lease

  abbrev pub get_leased_checkpoint : String → ℕ → Async Database (Option LeasedCheckpointValue)
  get_leased_checkpoint id p = gets (λ d. cached (d.leases id p) d.now)

  abbrev pub remove_leased_checkpoint : String → ℕ → Async Database (Option LeasedCheckpointValue)
  remove_leased_checkpoint id p = do
    lease ← get_leased_checkpoint id p
    modify (λ d. record d { leases = with_cell d.leases id p none })
    pure lease
