-- ===== src/Server/Requests/Races.antt =====
-- Two requests for one lease that are served at the same time.
use idempotent_transformer.Common.{
  ◌≡◌, refl, true, false, Option, none, some, List, [], ◌∷◌, Bool, arith,
}
use text.Mathlib.TextPositions.{eq_refl}
use idempotent_transformer.Async.{done}
use idempotent_transformer.Rpc.{LeaseCheckpointInput}
use idempotent_transformer.Server.{CheckpointValue, Libraries, cached}
use idempotent_transformer.Server.Checkpoints.{lease_found}
use idempotent_transformer.Server.Interleaving.{Shared, begun, ended, advance, run}

module _ (lib : Libraries) where
  -- A request that is served alone ends as its handler does.
  alone_found :
      (i j : LeaseCheckpointInput) (o : Option CheckpointValue) (s : Shared)
      → s.database.checkpoints i.workflow_id i.position ≡ o
      → s.locks i.workflow_id i.position ≡ false
      → let p =
          run lib i j
            (true ∷ true ∷ true ∷ true ∷ true ∷ true ∷ [])
            (record { first = begun; second = begun; shared = s }) in
        (p.first ≡ ended (lease_found lib i o s.database).0)
        × (p.shared.database ≡ (lease_found lib i o s.database).1)
  unfolding advance
  alone_found i j none s e free = rw e (rw free (refl, refl))
  alone_found i j (some row) s e free = rw e (refl, refl)

-- The first request up to its two reads, the second one up to its own, and then both to their replies.
abbrev pub racing : List Bool
racing =
    true ∷ true ∷ true ∷ true ∷ true ∷ false ∷ false ∷ false ∷ false ∷ false ∷ true ∷ false ∷ []

-- Two requests with the current token for a checkpoint that has no result, no lease and no lock are both
-- granted it under some schedule of their steps.
pub both_granted :
    (lib : Libraries) (i j : LeaseCheckpointInput) (s : Shared)
    → j.workflow_id ≡ i.workflow_id
    → j.position ≡ i.position
    → s.locks i.workflow_id i.position ≡ false
    → s.database.checkpoints i.workflow_id i.position ≡ none
    → cached lib (s.database.leases i.workflow_id i.position) s.database.now ≡ none
    → s.database.fencing_tokens i.workflow_id ≡ some i.fencing_token
    → j.fencing_token ≡ i.fencing_token
    → (schedule : List Bool) × (let p =
          run lib i j schedule (record { first = begun; second = begun; shared = s }) in
        (p.first ≡ ended (done none)) × (p.second ≡ ended (done none)))
unfolding advance
both_granted lib i j s same_id same_position unlocked_ missing free token same =
    (racing, ground (arith, eq_refl i.workflow_id))
