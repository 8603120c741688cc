-- ===== src/Server/Requests/Leases.antt =====
-- A lease is exclusive for as long as it lasts and the cache keeps it.
use idempotent_transformer.Common.{
  ℕ, ◌+◌, ◌-◌, ◌*◌, ◌/◌, ◌≤◌, ◌<◌, String, ◌≡◌, ◌≢◌, refl, sym, ap, ◌∙◌, inl, inr, Bool, true,
  false, ◌&&◌, not, Bool-cases, Option, none, some, List, [], ◌∷◌, ltb, ◌==◌, str_eq, str_eq_iff,
  arith,
}
use mathlib.Core.Path.{subst}
use text.Mathlib.TextPositions.{eq_refl}
use idempotent_transformer.Async.{done}
use idempotent_transformer.Rpc.{LeaseCheckpointInput, GenerateIdempotencyKeyInput}
use idempotent_transformer.Server.{
  LeasedCheckpointValue, Database, Libraries, CheckpointValue, cached, max,
  remove_leased_checkpoint,
}
use idempotent_transformer.Server.Checkpoints.{
  lease_with, lease_by_token, key_found, lease_found, stored_reply, handle_checkpoint,
  handle_lease_checkpoint, create_durable_idempotency_key, remaining_lease_timeout, saturating_add,
}
use idempotent_transformer.Server.Workflows.{create_workflow, finish_workflow}
use idempotent_transformer.Server.Requests.{
  Request, start, complete, checkpoint, lease, release, generate, wait, serve, serve_all,
}
use idempotent_transformer.Server.Requests.Clock.{
  SameLease, checkpoint_with-SameLease, lease_with-SameLease, stored_reply-SameLease,
  key_with-SameLease, finish_with-SameLease, serve-now, serve_all-now,
}

-- What is documented of the cache: an entry stays for its time to live.
abbrev pub Retains : Libraries → Type 0
Retains lib = (ttl age : ℕ) → age < 1000 * ttl → lib.evicted ttl age ≡ false

-- Whether a request may end the lease of a checkpoint.
abbrev pub ends_lease : String → ℕ → Request → Bool
ends_lease id p (checkpoint i) = str_eq i.workflow_id id && (i.position == p)
ends_lease id p (release id' q) = str_eq id' id && (q == p)
ends_lease id p _ = false

abbrev pub none_ends : String → ℕ → List Request → Bool
none_ends id p [] = true
none_ends id p (r ∷ rs) = not (ends_lease id p r) && none_ends id p rs

-- The end of a lease: that of its time, or that of its entry in the cache.
abbrev pub Lasts : (since timeout now : ℕ) → Type 0
Lasts since timeout now =
    (now < saturating_add since timeout) × (now < since + 1000 * max (timeout / 1000) 30)

ltb-true : (a b : ℕ) → a < b → ltb a b ≡ true
ltb-true a b h = ground arith

none_ends-cons :
    (id : String) (p : ℕ) (r : Request) (rs : List Request)
    → none_ends id p (r ∷ rs) ≡ true
    → (ends_lease id p r ≡ false) × (none_ends id p rs ≡ true)
none_ends-cons id p r rs e = ground arith

module _ (id : String) (p since timeout : ℕ) where
  -- The cache has the lease, which began at `since`.
  abbrev pub Held : Database → Type 0
  Held d =
      (d.leases id p
        ≡ some (record { lease_timeout = timeout; created_at = since }, max (timeout / 1000) 30))
      × (since ≤ d.now)

  module _ (lib : Libraries) (keeps : Retains lib) where
    cached-Held :
        (d : Database)
        → Held d
        → Lasts since timeout d.now
        → cached lib (d.leases id p) d.now
          ≡ some (record { lease_timeout = timeout; created_at = since })
    cached-Held d (e, le) (l, m) =
        rw e (rw (keeps (max (timeout / 1000) 30) (d.now - since) (omega arith)) refl)

    -- The two branches on the lease of another request for the same checkpoint.
    lease_with-Held :
        (i : LeaseCheckpointInput) (o : Option LeasedCheckpointValue)
        → o ≡ some (record { lease_timeout = timeout; created_at = since })
        → (token : Option ℕ) (d : Database) → Lasts since timeout d.now
        → lease_with i o token d
          ≡ (done (some (remaining_lease_timeout (saturating_add since timeout - d.now))), d)
    lease_with-Held i o e token d (l, m) =
        rw (e, ltb-true 0 (saturating_add since timeout - d.now) (omega arith)) refl

    same-Held : (d e : Database) → SameLease id p d e → Held d → Held e
    same-Held d e (a, b) (f, le) = (a ∙ f, omega arith)

    same_cell :
        (i : LeaseCheckpointInput)
        → (str_eq i.workflow_id id && (i.position == p)) ≡ true
        → (i.workflow_id ≡ id) × (i.position ≡ p)
    same_cell i e = ground (arith, str_eq_iff i.workflow_id id)

    lease_found-Held :
        (i : LeaseCheckpointInput) (o : Option CheckpointValue) (d : Database)
        → Lasts since timeout d.now
        → Held d
        → Held (lease_found lib i o d).1
    lease_found-Held i (some row) d l h =
        same-Held d (stored_reply i row d).1 (stored_reply-SameLease id p i row d) h
    lease_found-Held i none d l h =
        elim (Bool-cases (str_eq i.workflow_id id && (i.position == p))) [
          | inl same ↦
              let (a, b) = same_cell i same in
              let there : cached lib (d.leases i.workflow_id i.position) d.now
                  ≡ some (record { lease_timeout = timeout; created_at = since }) =
                rw (a, b) (cached-Held d h l) in
              let waits =
                lease_with-Held i (cached lib (d.leases i.workflow_id i.position) d.now) there
                  (d.fencing_tokens i.workflow_id) d l in
              subst Held (sym (ap (λ x. x.1) waits)) h
          | inr other ↦
              same-Held d (lease_found lib i none d).1
                (lease_with-SameLease id p i (cached lib (d.leases i.workflow_id i.position) d.now)
                  (d.fencing_tokens i.workflow_id) d other)
                h
        ]

    key_found-Held :
        (i : GenerateIdempotencyKeyInput) (o : Option CheckpointValue) (d : Database)
        → Held d
        → Held (key_found lib i o d).1
    key_found-Held i (some row) d h = h
    key_found-Held i none d h =
        same-Held d (key_found lib i none d).1
          (key_with-SameLease id p (lib.uuid d.uuids) i (d.fencing_tokens i.workflow_id) d) h

    serve-Held :
        (r : Request) (d : Database)
        → ends_lease id p r ≡ false
        → Lasts since timeout d.now
        → Held d
        → Held (serve lib r d)
    unfolding serve create_workflow finish_workflow handle_checkpoint handle_lease_checkpoint
        create_durable_idempotency_key
    serve-Held (start i) d n l h = h
    serve-Held (complete i) d n l h =
        same-Held d (serve lib (complete i) d)
          (finish_with-SameLease id p i (d.fencing_tokens i.workflow_id) d) h
    serve-Held (checkpoint i) d n l (e, le) =
        same-Held (remove_leased_checkpoint lib i.workflow_id i.position d).1
          (serve lib (checkpoint i) d)
          (checkpoint_with-SameLease id p i (d.fencing_tokens i.workflow_id)
            (cached lib (d.leases i.workflow_id i.position) d.now)
            (remove_leased_checkpoint lib i.workflow_id i.position d).1)
          (rw n e, le)
    serve-Held (lease i) d n l h = lease_found-Held i (d.checkpoints i.workflow_id i.position) d l h
    serve-Held (release id' q) d n l (e, le) = (rw n e, le)
    serve-Held (generate i) d n l h = key_found-Held i (d.checkpoints i.workflow_id i.position) d h
    serve-Held (wait ms) d n l (e, le) = (e, omega arith)

    serve_all-Held :
        (rs : List Request) (d : Database)
        → none_ends id p rs ≡ true
        → Lasts since timeout (serve_all lib rs d).now
        → Held d
        → Held (serve_all lib rs d)
    serve_all-Held [] d n l h = h
    serve_all-Held (r ∷ rs) d n (l, m) h =
        let later = serve-now lib r d in
        let latest = serve_all-now lib rs (serve lib r d) in
        let (this, others) = none_ends-cons id p r rs n in
        serve_all-Held rs (serve lib r d) others (l, m)
          (serve-Held r d this (omega arith, omega arith) h)

    lease_found-refused :
        (i : LeaseCheckpointInput) (o : Option CheckpointValue) (d : Database)
        → i.workflow_id ≡ id
        → i.position ≡ p
        → Lasts since timeout d.now
        → Held d
        → (lease_found lib i o d).0 ≢ done none
    lease_found-refused i (some row) d a b l h e = ground arith
    lease_found-refused i none d a b l h e =
        let there : cached lib (d.leases i.workflow_id i.position) d.now
            ≡ some (record { lease_timeout = timeout; created_at = since }) =
          rw (a, b) (cached-Held d h l) in
        let waits =
          lease_with-Held i (cached lib (d.leases i.workflow_id i.position) d.now) there
            (d.fencing_tokens i.workflow_id) d l in
        let clash : done (some (remaining_lease_timeout (saturating_add since timeout - d.now)))
            ≡ done none =
          sym (ap (λ x. x.0) waits) ∙ e in
        ground arith

lease_by_token-Held :
    (i : LeaseCheckpointInput) (token : Option ℕ) (d : Database)
    → (lease_by_token i token d).0 ≡ done none
    → Held i.workflow_id i.position d.now i.lease_timeout (lease_by_token i token d).1
lease_by_token-Held i none d e = ground arith
lease_by_token-Held i (some token) d e = ground (arith, eq_refl i.workflow_id)

lease_with-granted :
    (i : LeaseCheckpointInput) (l : Option LeasedCheckpointValue) (token : Option ℕ) (d : Database)
    → (lease_with i l token d).0 ≡ done none
    → Held i.workflow_id i.position d.now i.lease_timeout (lease_with i l token d).1
lease_with-granted i none token d e = lease_by_token-Held i token d e
lease_with-granted i (some l) token d e = ground (arith, lease_by_token-Held i token d)

lease_found-granted :
    (lib : Libraries) (i : LeaseCheckpointInput) (o : Option CheckpointValue) (d : Database)
    → (lease_found lib i o d).0 ≡ done none
    → Held i.workflow_id i.position d.now i.lease_timeout (lease_found lib i o d).1
lease_found-granted lib i (some row) d e = ground arith
lease_found-granted lib i none d e =
    lease_with-granted i (cached lib (d.leases i.workflow_id i.position) d.now)
      (d.fencing_tokens i.workflow_id) d e

-- A lease that was granted is exclusive: through requests that neither release the checkpoint nor store
-- it, no other request for it is granted until the lease has run out, or its time in the cache has: the
-- whole seconds of its length, and 30 at least.
pub lease_exclusive :
    (lib : Libraries)
    → Retains lib
    → (i j : LeaseCheckpointInput) (rs : List Request) (d : Database)
    → (handle_lease_checkpoint lib i d).0 ≡ done none
    → j.workflow_id ≡ i.workflow_id
    → j.position ≡ i.position
    → none_ends i.workflow_id i.position rs ≡ true
    → Lasts d.now i.lease_timeout (serve_all lib rs (handle_lease_checkpoint lib i d).1).now
    → (handle_lease_checkpoint lib j (serve_all lib rs (handle_lease_checkpoint lib i d).1)).0
      ≢ done none
unfolding handle_lease_checkpoint
lease_exclusive lib keeps i j rs d granted a b n l =
    let found = lease_found lib i (d.checkpoints i.workflow_id i.position) d in
    let e = serve_all lib rs found.1 in
    let held = lease_found-granted lib i (d.checkpoints i.workflow_id i.position) d granted in
    lease_found-refused i.workflow_id i.position d.now i.lease_timeout lib keeps j
      (e.checkpoints j.workflow_id j.position) e a b l
      (serve_all-Held i.workflow_id i.position d.now i.lease_timeout lib keeps rs found.1 n l held)
