-- ===== src/Memo/Executing.antt =====
-- One execution of a runner against what is promised of it, by what the server has at its position.
use idempotent_transformer.Common.{
  ℕ, ◌+◌, ◌*◌, String, ◌≡◌, refl, ap, ◌∙◌, Bool, true, false, Bool-cases, Option, none, some, ltb,
  ◌==◌, str_eq, str_eq_iff, inl, inr, or_default,
}
use idempotent_transformer.Async.{
  Thrown, Outcome, done, thrown, running, Async, continue, handle, pure, ◌>>◌,
}
use idempotent_transformer.Rpc.{
  bytes, code_text, fencing_token_expired, non_deterministic_checkpoint_found,
}
use idempotent_transformer.Runner.{TaskOptions, Workflow, Session, is_not_found, next_position}
use idempotent_transformer.Execute.{lease_timeout_of, perform}
use idempotent_transformer.Execute.Failures.{request, execute_refused}
use idempotent_transformer.Execute.Paths.{
  async_task, execute_replays, execute_granted, perform_stores, perform_rejected,
}
use idempotent_transformer.MessagePack.{serialize, deserialize}
use idempotent_transformer.Server.{with_cell, lease_checkpoint}
use idempotent_transformer.Server.Requests.Durability.{content}
use idempotent_transformer.Simulation.{Agrees, Simulates, SessionRel}
use idempotent_transformer.Memo.{
  Spec, refused, memo_at, memo_end, memo_release, memo_lease, settle_result,
}
use idempotent_transformer.Memo.Leasing.{
  lease_gives, lease_differs, lease_granted, lease_expired, lease_unexpected,
}
use idempotent_transformer.Memo.Performing.{
  lease-Holds, release-Holds, store-Holds, release_lem, checkpoint_lem,
}
use idempotent_transformer.Memo.Reflects.{packed, Reflects}
use idempotent_transformer.Memo.World.{
  World, Platform, IsFaithful, world_host, lease_option, world_execute,
}

lease_timeout_lem :
    {R U : Type 0} (f : Platform R U) (timeout : Option ℕ)
    → lease_timeout_of (lease_option f timeout) ≡ or_default timeout (1000 * 30)
lease_timeout_lem f none = refl
lease_timeout_lem f (some n) = refl

module _ (Mine : String → Type 0) {R U : Type 0} (f : Platform R U) (law : IsFaithful f)
    (w : Workflow) (owner : Mine w.workflow_id) (key : String) (task : Async (Spec R U) R)
    (task' : Async (World U) R) (timeout : Option ℕ) (p : ℕ) where
  -- How an execution ends whose promise is `o`, at `a`.
  abbrev pub Ends : Outcome R → Spec R U → Outcome R × Session (World U) → Type 0
  Ends running a t = Unit
  Ends (done r) a t = (t.0 ≡ done r) × ((t.1.position ≡ p + 1) × Reflects Mine f.pack a t.1.env)
  Ends (thrown err) a t = (t.0 ≡ thrown err) × ((t.1.position ≡ p) × Reflects Mine f.pack a t.1.env)

  abbrev at : World U → Session (World U)
  at e = record { position = p; env = e }

  abbrev options : Option (TaskOptions (World U) R)
  options = lease_option f timeout

  abbrev run : World U → Outcome R × Session (World U)
  run e = world_execute f w key task' timeout (at e)

  refused-Ends :
      (a : Spec R U) (e : World U) (err : Thrown)
      → Reflects Mine f.pack a e
      → is_not_found err ≡ false
      → (world_host f).rpc_adapter.lease_checkpoint (request (world_host f) w key options p) e
        ≡ (thrown err, e)
      → Ends (thrown err) a (run e)
  unfolding world_execute
  refused-Ends a e err r n c =
      rw (execute_refused (world_host f) w key options 0 p (async_task f.promise task') e e err c n)
        (refl, (refl, r))

  found-Ends :
      (a : Spec R U) (e : World U) (k : String) (r : R) (b : Bool)
      → Reflects Mine f.pack a e
      → a.memo.results w.workflow_id p ≡ some (k, r)
      → str_eq k key ≡ b
      → Ends
          (memo_at w key task (or_default timeout (1000 * 30)) p (some (k, r)) a).0
          (memo_at w key task (or_default timeout (1000 * 30)) p (some (k, r)) a).1
          (run e)
  unfolding world_execute deserialize is_not_found
  found-Ends a e k r true rel there same =
      let equal : k ≡ key = (str_eq_iff k key).0 same in
      let stored : content (e.database.checkpoints w.workflow_id p) ≡ some (key, some (f.pack r)) =
        rel.0.results w.workflow_id p owner
        ∙ ap (packed f.pack) there
        ∙ ap (λ x. some (x, some (f.pack r))) equal in
      let (out, gave, value) =
        lease_gives f law (request (world_host f) w key options p) e (f.pack r) stored in
      rw same (
        rw
          (execute_replays (world_host f) w key options 0 p (async_task f.promise task') e e e out
            (bytes (f.pack r)) r gave value (ap (λ o. (o, e)) (law.unpacks r)))
          (refl, (refl, rel)))
  found-Ends a e k r false rel there other =
      let stored : content (e.database.checkpoints w.workflow_id p) ≡ some (k, some (f.pack r)) =
        rel.0.results w.workflow_id p owner ∙ ap (packed f.pack) there in
      rw other (
        refused-Ends a e (refused (code_text non_deterministic_checkpoint_found)) rel refl (
          lease_differs f law (request (world_host f) w key options p) e k (f.pack r) stored other))

  abbrev lease_time : ℕ
  lease_time = or_default timeout (1000 * 30)

  abbrev performed : ℕ → World U → Outcome R × Session (World U)
  performed before e =
      perform (world_host f) w 1 key (async_task f.promise task') options before (at e)

  stored-Ends :
      (before : ℕ) (r : R) (a : Spec R U) (e e1 : World U) (current : Option ℕ)
      → Reflects Mine f.pack a e1
      → a.memo.tokens w.workflow_id ≡ current
      → ltb a.memo.now (before + lease_time) ≡ true
      → task' e ≡ (done r, e1)
      → Ends
          (settle_result w key p r current a).0
          (settle_result w key p r current a).1
          (performed before e)
  unfolding serialize
  stored-Ends before r a e e1 none rel there early ran = tt
  stored-Ends before r a e e1 (some token) rel there early ran =
      elim (Bool-cases (w.fencing_token == token)) [
        | inr other ↦ rw other tt
        | inl same ↦
            let d = e1.database in
            let now : ltb d.now (before + lease_timeout_of options) ≡ true =
              rw (rel.0.now, lease_timeout_lem f timeout) early in
            let stored =
              checkpoint_lem f law w.workflow_id w.fencing_token p key (f.pack r) token e1
                (rel.0.tokens w.workflow_id owner ∙ there) same in
            let released = release-Holds Mine f.pack a.memo d rel.0 w.workflow_id p f.libraries in
            rw same (
              rw
                (perform_stores (world_host f) w key options 0 p before d.now f.promise task' e e1
                  e1 e1 _ r (bytes (f.pack r)) ran refl refl now stored)
                (
                  refl,
                  (refl, (store-Holds Mine f.pack _ _ released w.workflow_id p key r owner, rel.1)),
                ))
      ]

  after_task-Ends :
      (before : ℕ) (e : World U) (o : Outcome R) (a : Spec R U) (o' : Outcome R) (e1 : World U)
      → Agrees (Reflects Mine f.pack) o a o' e1
      → task' e ≡ (o', e1)
      → Ends
          (continue
            (handle o (memo_release w p) a).0
            (memo_end w key lease_time p before)
            (handle o (memo_release w p) a).1).0
          (continue
            (handle o (memo_release w p) a).0
            (memo_end w key lease_time p before)
            (handle o (memo_release w p) a).1).1
          (performed before e)
  after_task-Ends before e running a o' e1 rel ran = tt
  after_task-Ends before e (thrown err) a o' e1 (same, rel) ran =
      rw
        (perform_rejected (world_host f) w key options 1 p before f.promise task' e e1 _ err
          (ran ∙ ap (λ x. (x, e1)) same) (release_lem f law w.workflow_id p e1))
        (
          refl,
          (
            refl,
            (release-Holds Mine f.pack a.memo e1.database rel.0 w.workflow_id p f.libraries, rel.1),
          ),
        )
  after_task-Ends before e (done r) a o' e1 (same, rel) ran =
      elim (Bool-cases (ltb a.memo.now (before + lease_time))) [
        | inr late ↦ rw late tt
        | inl early ↦ rw early (
            stored-Ends before r a e e1 (a.memo.tokens w.workflow_id) rel refl early
              (ran ∙ ap (λ x. (x, e1)) same))
      ]

  granted-Ends :
      (a : Spec R U) (e : World U) (current : Option ℕ)
      → Simulates (Reflects Mine f.pack) task task'
      → Reflects Mine f.pack a e
      → a.memo.results w.workflow_id p ≡ none
      → a.memo.leased w.workflow_id p ≡ false
      → a.memo.tokens w.workflow_id ≡ current
      → Ends
          (memo_lease w key task lease_time p current a).0
          (memo_lease w key task lease_time p current a).1
          (run e)
  unfolding world_execute is_not_found
  granted-Ends a e none sim rel none_there unleased_there there = tt
  granted-Ends a e (some token) sim rel none_there unleased_there there =
      let absent = rel.0.results w.workflow_id p owner ∙ ap (packed f.pack) none_there in
      let free = rel.0.leases w.workflow_id p owner unleased_there in
      let current = rel.0.tokens w.workflow_id owner ∙ there in
      let i = request (world_host f) w key options p in
      elim (Bool-cases (ltb w.fencing_token token)) [
        | inl old ↦ rw old (
            refused-Ends a e (refused (code_text fencing_token_expired)) rel refl
              (lease_expired f law i e absent free token current old))
        | inr young ↦ rw young (elim (Bool-cases (w.fencing_token == token)) [
          | inr other ↦ rw other (
              refused-Ends a e (refused "unexpected state") rel refl
                (lease_unexpected f law i e absent free token current young other))
          | inl same ↦
              let (out, gave, empty, no_wait) =
                lease_granted f law i e absent free token current young same in
              let e1 : World U = record e {
                database =
                    (lease_checkpoint w.workflow_id p (lease_timeout_of options) e.database).1;
              } in
              let a1 : Spec R U = record a {
                memo = record a.memo { leased = with_cell a.memo.leased w.workflow_id p true };
              } in
              let rel1 : Reflects Mine f.pack a1 e1 = (
                lease-Holds Mine f.pack a.memo e.database rel.0 w.workflow_id p
                    (lease_timeout_of options),
                rel.1,
              ) in
              rw same (
                rw
                  (execute_granted (world_host f) w key options 0 p a.memo.now
                    (async_task f.promise task') e e1 e1 out gave empty no_wait
                    (ap (λ n. (done n, e1)) rel.0.now))
                  (after_task-Ends a.memo.now e1 (task a1).0 (task a1).1 (task' e1).0 (task' e1).1
                    (sim a1 e1 rel1) refl))
        ])
      ]

  pub at-Ends :
      (a : Spec R U) (e : World U) (found : Option (String × R))
      → Simulates (Reflects Mine f.pack) task task'
      → Reflects Mine f.pack a e
      → a.memo.results w.workflow_id p ≡ found
      → Ends
          (memo_at w key task lease_time p found a).0
          (memo_at w key task lease_time p found a).1
          (run e)
  at-Ends a e (some (k, r)) sim rel there = found-Ends a e k r (str_eq k key) rel there refl
  at-Ends a e none sim rel there = elim (Bool-cases (a.memo.leased w.workflow_id p)) [
    | inl busy ↦ rw busy tt
    | inr free ↦ rw free (granted-Ends a e (a.memo.tokens w.workflow_id) sim rel there free refl)
  ]

  pub Ends-Agrees :
      (o : Outcome R) (a : Spec R U) (t : Outcome R × Session (World U))
      → Ends o a t
      → Agrees
          (SessionRel (Reflects Mine f.pack))
          (continue o (λ r. next_position >> pure r) (record { position = p; env = a })).0
          (continue o (λ r. next_position >> pure r) (record { position = p; env = a })).1
          t.0
          t.1
  Ends-Agrees running a t ends = tt
  Ends-Agrees (done r) a t ends = ends
  Ends-Agrees (thrown err) a t ends = ends
