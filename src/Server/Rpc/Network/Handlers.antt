-- ===== src/Server/Rpc/Network/Handlers.antt =====
-- How the handlers of leases and checkpoints end: whether they leave the server as it was, and that they
-- take no time.
use idempotent_transformer.Common.{
  ℕ, ◌+◌, ◌-◌, ◌<◌, ◌≡◌, refl, inl, inr, Bool-cases, Option, none, some, List, ltb, str_eq, arith,
}
use idempotent_transformer.Async.{Outcome, done, thrown, running}
use idempotent_transformer.Rpc.{LeaseCheckpointInput}
use idempotent_transformer.Execute.Termination.{IsOver}
use idempotent_transformer.Server.{
  CheckpointValue, LeasedCheckpointValue, Database, Libraries, cached,
}
use idempotent_transformer.Server.Checkpoints.{
  CheckpointInput as ServerInput, LeaseReply, checkpoint_value, remaining_lease_timeout,
  saturating_add, checkpoint_with, lease_by_token, lease_with, lease_found, stored_reply,
}

-- A lease that is there runs out before a time.
abbrev pub RunsOut : LeaseCheckpointInput → ℕ → Database → Type 0
RunsOut i free d =
    (lease : LeasedCheckpointValue) (ttl : ℕ)
    → d.leases i.workflow_id i.position ≡ some (lease, ttl)
    → saturating_add lease.created_at lease.lease_timeout < free

-- How a request for a lease ends: it is granted, or changes nothing; and if it is told to wait, the lease
-- that is there has not run out.
abbrev pub Leased : Database → ℕ → Outcome (Option LeaseReply) → Database → Type 0
Leased d free (done none) e = e.now ≡ d.now
Leased d free (done (some (checkpoint_value v))) e = e ≡ d
Leased d free (done (some (remaining_lease_timeout n))) e = (e ≡ d) × (d.now + 1 < free)
Leased d free (thrown err) e = e ≡ d
Leased d free running e = ⊥

lease_by_token-Leased :
    (i : LeaseCheckpointInput) (token : Option ℕ) (free : ℕ) (d : Database)
    → Leased d free (lease_by_token i token d).0 (lease_by_token i token d).1
lease_by_token-Leased i none free d = refl
lease_by_token-Leased i (some token) free d = ground arith

lease_with-Leased :
    (i : LeaseCheckpointInput) (l : Option LeasedCheckpointValue) (token : Option ℕ) (free : ℕ)
    (d : Database)
    → ((lease : LeasedCheckpointValue)
        → l ≡ some lease
        → saturating_add lease.created_at lease.lease_timeout < free)
    → Leased d free (lease_with i l token d).0 (lease_with i l token d).1
lease_with-Leased i none token free d out = lease_by_token-Leased i token free d
lease_with-Leased i (some lease) token free d out =
    let soon = out lease refl in
    elim (Bool-cases (ltb 0 (saturating_add lease.created_at lease.lease_timeout - d.now))) [
      | inl held ↦ rw held (refl, ground arith)
      | inr free_ ↦ rw free_ (lease_by_token-Leased i token free d)
    ]

cached_lem :
    (lib : Libraries) (o : Option (LeasedCheckpointValue × ℕ)) (now : ℕ)
    (lease : LeasedCheckpointValue)
    → cached lib o now ≡ some lease
    → (ttl : ℕ) × (o ≡ some (lease, ttl))
cached_lem lib none now lease e = cc
cached_lem lib (some (l, ttl)) now lease e = (ttl, ground arith)

stored_reply-Leased :
    (i : LeaseCheckpointInput) (row : CheckpointValue) (v : Option (List ℕ)) (free : ℕ)
    (d : Database)
    → row.value ≡ v
    → Leased d free (stored_reply i row d).0 (stored_reply i row d).1
stored_reply-Leased i row none free d e =
    elim (Bool-cases (str_eq row.idempotency_key i.idempotency_key)) [
      | inl same ↦ rw (same, e) refl
      | inr other ↦ rw other refl
    ]
stored_reply-Leased i row (some b) free d e =
    elim (Bool-cases (str_eq row.idempotency_key i.idempotency_key)) [
      | inl same ↦ rw (same, e) refl
      | inr other ↦ rw other refl
    ]

pub lease_found-Leased :
    (lib : Libraries) (i : LeaseCheckpointInput) (o : Option CheckpointValue) (free : ℕ)
    (d : Database)
    → RunsOut i free d
    → Leased d free (lease_found lib i o d).0 (lease_found lib i o d).1
lease_found-Leased lib i none free d out =
    lease_with-Leased i (cached lib (d.leases i.workflow_id i.position) d.now)
      (d.fencing_tokens i.workflow_id) free d
      (λ lease e. let (ttl, there) = cached_lem lib _ d.now lease e in out lease ttl there)
lease_found-Leased lib i (some row) free d out = stored_reply-Leased i row row.value free d refl

-- A handler that ends, and takes no time.
abbrev pub Steady : {A : Type 0} → Database → Outcome A → Database → Type 0
Steady d o e = IsOver o × (e.now ≡ d.now)

lease_by_token-Steady :
    (i : LeaseCheckpointInput) (token : Option ℕ) (d : Database)
    → Steady d (lease_by_token i token d).0 (lease_by_token i token d).1
lease_by_token-Steady i none d = (tt, refl)
lease_by_token-Steady i (some token) d = ground arith

stored_reply-Steady :
    (i : LeaseCheckpointInput) (row : CheckpointValue) (v : Option (List ℕ)) (d : Database)
    → row.value ≡ v
    → Steady d (stored_reply i row d).0 (stored_reply i row d).1
stored_reply-Steady i row none d e =
    elim (Bool-cases (str_eq row.idempotency_key i.idempotency_key)) [
      | inl same ↦ rw (same, e) (tt, refl)
      | inr other ↦ rw other (tt, refl)
    ]
stored_reply-Steady i row (some b) d e =
    elim (Bool-cases (str_eq row.idempotency_key i.idempotency_key)) [
      | inl same ↦ rw (same, e) (tt, refl)
      | inr other ↦ rw other (tt, refl)
    ]

pub lease_found-Steady :
    (lib : Libraries) (i : LeaseCheckpointInput) (o : Option CheckpointValue) (d : Database)
    → Steady d (lease_found lib i o d).0 (lease_found lib i o d).1
lease_found-Steady lib i none d = go (cached lib (d.leases i.workflow_id i.position) d.now)
  where
    go :
        (l : Option LeasedCheckpointValue)
        → Steady d
            (lease_with i l (d.fencing_tokens i.workflow_id) d).0
            (lease_with i l (d.fencing_tokens i.workflow_id) d).1
    go none = lease_by_token-Steady i (d.fencing_tokens i.workflow_id) d
    go (some lease) = ground (arith, lease_by_token-Steady i (d.fencing_tokens i.workflow_id) d)
lease_found-Steady lib i (some row) d = stored_reply-Steady i row row.value d refl

pub checkpoint_with-Steady :
    (i : ServerInput) (token : Option ℕ) (l : Option LeasedCheckpointValue) (d : Database)
    → Steady d (checkpoint_with i token l d).0 (checkpoint_with i token l d).1
checkpoint_with-Steady i none l d = (tt, refl)
checkpoint_with-Steady i (some token) none d = ground arith
checkpoint_with-Steady i (some token) (some lease) d = ground arith
