-- ===== src/Server/Interleaving.antt =====
-- server/src/services/checkpoint_service.rs: `handle_lease_checkpoint` from one await to the next, for two
-- requests that are served at the same time.
-- The lock of the cluster is a parameter of the code; as its comment says, a lock is held as long as its
-- guard exists, and other locks of the same key wait meanwhile. The key is made of the workflow and the
-- position, under which the lock stands here.
use idempotent_transformer.Common.{
  ℕ, String, Bool, true, false, Option, none, some, List, [], ◌∷◌, if◌then◌else◌,
}
use idempotent_transformer.Async.{Outcome}
use idempotent_transformer.Rpc.{LeaseCheckpointInput}
use idempotent_transformer.Server.{
  CheckpointValue, LeasedCheckpointValue, Database, Libraries, with_cell, cached,
}
use idempotent_transformer.Server.Checkpoints.{LeaseReply, stored_reply, lease_with}

-- What the requests share.
pub record Shared : Type 0 where
  pub database : Database
  pub locks : String → ℕ → Bool

-- How far a request has come: it has found no checkpoint (`missed`), has the guard of the lock (`locked`) and
-- has dropped it (`unlocked`), has read the lease, or that and the token, or has its reply.
pub data Stage : Type 0 where
  begun missed locked unlocked : Stage
  lease_read : Option LeasedCheckpointValue → Stage
  both_read : Option LeasedCheckpointValue → Option ℕ → Stage
  ended : Outcome (Option LeaseReply) → Stage

abbrev pub set_lock : LeaseCheckpointInput → Bool → Shared → Shared
set_lock i b s = record s { locks = with_cell s.locks i.workflow_id i.position b }

abbrev pub after_checkpoint :
    LeaseCheckpointInput → Option CheckpointValue → Shared → Stage × Shared
after_checkpoint i none s = (missed, s)
after_checkpoint i (some row) s =
    let (o, d) = stored_reply i row s.database in (ended o, record s { database = d })

module _ (lib : Libraries) where
  -- The next step of a request. One that waits for the lock stays where it is. `let _ = …` drops the guard at
  -- the end of its statement, in front of the reads.
  unfoldable pub advance : LeaseCheckpointInput → Stage → Shared → Stage × Shared
  advance i begun s = after_checkpoint i (s.database.checkpoints i.workflow_id i.position) s
  advance i missed s =
      if s.locks i.workflow_id i.position then (missed, s) else (locked, set_lock i true s)
  advance i locked s = (unlocked, set_lock i false s)
  advance i unlocked s =
      (lease_read (cached lib (s.database.leases i.workflow_id i.position) s.database.now), s)
  advance i (lease_read lease) s = (both_read lease (s.database.fencing_tokens i.workflow_id), s)
  advance i (both_read lease token) s =
      let (o, d) = lease_with i lease token s.database in (ended o, record s { database = d })
  advance i (ended o) s = (ended o, s)

-- Two requests that are served at the same time.
pub record Pair : Type 0 where
  pub first : Stage
  pub second : Stage
  pub shared : Shared

module _ (lib : Libraries) (i j : LeaseCheckpointInput) where
  -- The next step of the first request, or of the second one.
  abbrev pub proceed : Bool → Pair → Pair
  proceed true p =
      let (stage, s) = advance lib i p.first p.shared in record p { first = stage; shared = s }
  proceed false p =
      let (stage, s) = advance lib j p.second p.shared in record p { second = stage; shared = s }

  -- The steps of a schedule.
  abbrev pub run : List Bool → Pair → Pair
  run [] p = p
  run (b ∷ schedule) p = run schedule (proceed b p)
