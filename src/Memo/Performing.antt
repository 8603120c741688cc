-- ===== src/Memo/Performing.antt =====
-- What the adapter and the server do when a result is stored or a lease released, and that the tables
-- still are those that the promise speaks of.
use idempotent_transformer.Common.{
  ℕ, String, ◌≡◌, refl, true, false, Option, none, some, ltb, ◌==◌, str_eq_iff, List, arith,
}
use idempotent_transformer.Async.{done}
use idempotent_transformer.Rpc.{bytes}
use idempotent_transformer.Grpc.{checkpoint, release_lease_checkpoint}
use idempotent_transformer.Server.{
  CheckpointValue, Database, Libraries, cached, upserted, with_cell, create_checkpoint,
  lease_checkpoint, remove_leased_checkpoint,
}
use idempotent_transformer.Server.Checkpoints.{handle_checkpoint, ran_out}
use idempotent_transformer.Server.Requests.Durability.{content}
use idempotent_transformer.Server.Rpc.{service}
use idempotent_transformer.Memo.{Memo, first_of}
use idempotent_transformer.Memo.Reflects.{packed, Holds}
use idempotent_transformer.Memo.World.{World, Platform, IsFaithful, world_host}

module _ (Mine : String → Type 0) {R : Type 0} (pack : R → List ℕ) (m : Memo R) (d : Database)
    (holds : Holds Mine pack m d) (id : String) (p : ℕ) where
  pub lease-Holds :
      (timeout : ℕ)
      → Holds Mine pack
          (record m { leased = with_cell m.leased id p true })
          (lease_checkpoint id p timeout d).1
  lease-Holds timeout = record {
    now = holds.now;
    tokens = holds.tokens;
    rows = holds.rows;
    results = holds.results;
    leases = λ id' q own e. let free = holds.leases id' q own in ground (arith, str_eq_iff id id');
  }

  pub release-Holds :
      (lib : Libraries)
      → Holds Mine pack
          (record m { leased = with_cell m.leased id p false })
          (remove_leased_checkpoint lib id p d).1
  release-Holds lib = record {
    now = holds.now;
    tokens = holds.tokens;
    rows = holds.rows;
    results = holds.results;
    leases = λ id' q own e. let free = holds.leases id' q own in ground (arith, str_eq_iff id id');
  }

  upserted_lem :
      (o : Option CheckpointValue) (a : Option (String × R)) (key : String) (r : R)
      → content o ≡ packed pack a
      → content (some (upserted o key (some (pack r)) d.now)) ≡ packed pack (first_of a (key, r))
  upserted_lem none none key r e = refl
  upserted_lem none (some c) key r e = cc
  upserted_lem (some row) none key r e = cc
  upserted_lem (some row) (some c) key r e = e

  pub store-Holds :
      (key : String) (r : R) (owner : Mine id)
      → Holds Mine pack
          (record m { results = with_cell m.results id p (first_of (m.results id p) (key, r)) })
          (create_checkpoint id (some (pack r)) p key d).1
  store-Holds key r owner = record {
    now = holds.now;
    tokens = holds.tokens;
    rows = holds.rows;
    results = λ id' q own.
        let kept = holds.results id' q own in
        let here =
          upserted_lem (d.checkpoints id p) (m.results id p) key r (holds.results id p owner) in
        ground (arith, str_eq_iff id id');
    leases = holds.leases;
  }

module _ {R U : Type 0} (f : Platform R U) (law : IsFaithful f) where
  -- The state once the lease is removed.
  abbrev unleased : String → ℕ → Database → Database
  unleased id p d = (remove_leased_checkpoint f.libraries id p d).1

  pub release_lem :
      (id : String) (p : ℕ) (e : World U)
      → (world_host f).rpc_adapter.release_lease_checkpoint
          (record { workflow_id = id; position = p })
          e
        ≡ (done tt, record e { database = unleased id p e.database })
  unfolding release_lease_checkpoint service
  release_lem id p e = refl

  pub checkpoint_lem :
      (id : String) (token p : ℕ) (key : String) (b : List ℕ) (current : ℕ) (e : World U)
      → e.database.fencing_tokens id ≡ some current
      → (token == current) ≡ true
      → (world_host f).rpc_adapter.checkpoint
          (record {
            workflow_id = id;
            value = bytes b;
            fencing_token = token;
            position = p;
            idempotency_key = key;
          })
          e
        ≡ (
          done (record { abort = false }),
          record e {
            database = (create_checkpoint id (some b) p key (unleased id p e.database)).1;
          },
        )
  unfolding checkpoint service handle_checkpoint
  checkpoint_lem id token p key b current e there same =
      let late =
        ran_out (cached f.libraries (e.database.leases id p) e.database.now) e.database.now in
      let sent = law.sent b in
      let early : ltb token current ≡ false = ground arith in rw there (rw sent (ground arith))
