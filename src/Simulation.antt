-- ===== src/Simulation.antt =====
-- When a program over a detailed state does what a program over an abstract state says, with the rules
-- by which such programs are put together. An abstract program that is `running` says nothing.
use idempotent_transformer.Common.{ℕ, ◌≡◌, refl, Bool, true, false, if◌then◌else◌}
use idempotent_transformer.Async.{
  Thrown, Outcome, done, thrown, running, Async, pure, throw, ◌>>=◌, ◌>>◌, try_catch, continue,
  handle,
}
use idempotent_transformer.Runner.{Session, on_env}

module _ {S T : Type 0} (Rel : S → T → Type 0) where
  -- The detailed run ends as the abstract one does, in related states.
  abbrev pub Agrees : {A : Type 0} → Outcome A → S → Outcome A → T → Type 0
  Agrees running s o t = Unit
  Agrees (done a) s o t = (o ≡ done a) × Rel s t
  Agrees (thrown err) s o t = (o ≡ thrown err) × Rel s t

  abbrev pub Simulates : {A : Type 0} → Async S A → Async T A → Type 0
  Simulates m n = (s : S) (t : T) → Rel s t → Agrees (m s).0 (m s).1 (n t).0 (n t).1

  pure-Simulates : {A : Type 0} (a : A) → Simulates (pure a) (pure a)
  pure-Simulates a s t r = (refl, r)

  throw-Simulates : {A : Type 0} (err : Thrown) → Simulates {A = A} (throw err) (throw err)
  throw-Simulates err s t r = (refl, r)

  module _ {A B : Type 0} where
    continue-Agrees :
        (P : A → Type 0) (f : A → Async S B) (g : A → Async T B)
        → ((a : A) → P a → Simulates (f a) (g a))
        → (o : Outcome A) (s : S) (o' : Outcome A) (t : T) → ((a : A) → o ≡ done a → P a)
        → Agrees o s o' t
        → Agrees (continue o f s).0 (continue o f s).1 (continue o' g t).0 (continue o' g t).1
    continue-Agrees P f g sim running s o' t yields r = tt
    continue-Agrees P f g sim (done a) s o' t yields (e, r) = rw e (sim a (yields a refl) s t r)
    continue-Agrees P f g sim (thrown err) s o' t yields (e, r) = rw e (refl, r)

    -- What follows a call may use what is known of its result.
    pub >>=-Simulates :
        (P : A → Type 0) (m : Async S A) (n : Async T A) (f : A → Async S B) (g : A → Async T B)
        → ((s : S) (a : A) → (m s).0 ≡ done a → P a)
        → Simulates m n
        → ((a : A) → P a → Simulates (f a) (g a))
        → Simulates (m >>= f) (n >>= g)
    >>=-Simulates P m n f g yields sim sims s t r =
        continue-Agrees P f g sims (m s).0 (m s).1 (n t).0 (n t).1 (yields s) (sim s t r)

  module _ {A : Type 0} where
    handle-Agrees :
        (f : Thrown → Async S A) (g : Thrown → Async T A)
        → ((err : Thrown) → Simulates (f err) (g err))
        → (o : Outcome A) (s : S) (o' : Outcome A) (t : T) → Agrees o s o' t
        → Agrees (handle o f s).0 (handle o f s).1 (handle o' g t).0 (handle o' g t).1
    handle-Agrees f g sim running s o' t r = tt
    handle-Agrees f g sim (done a) s o' t (e, r) = rw e (refl, r)
    handle-Agrees f g sim (thrown err) s o' t (e, r) = rw e (sim err s t r)

    try_catch-Simulates :
        (m : Async S A) (n : Async T A) (f : Thrown → Async S A) (g : Thrown → Async T A)
        → Simulates m n
        → ((err : Thrown) → Simulates (f err) (g err))
        → Simulates (try_catch m f) (try_catch n g)
    try_catch-Simulates m n f g sim sims s t r =
        handle-Agrees f g sims (m s).0 (m s).1 (n t).0 (n t).1 (sim s t r)

-- Two sessions at the same position, in related worlds.
abbrev pub SessionRel : {S T : Type 0} → (S → T → Type 0) → Session S → Session T → Type 0
SessionRel Rel s t = (t.position ≡ s.position) × Rel s.env t.env

module _ {S T : Type 0} (Rel : S → T → Type 0) where
  on_env-Agrees :
      {A : Type 0} (p q : ℕ) (e : q ≡ p) (o : Outcome A) (s : S) (o' : Outcome A) (t : T)
      → Agrees Rel o s o' t
      → Agrees
          (SessionRel Rel)
          o
          (record { position = p; env = s })
          o'
          (record { position = q; env = t })
  on_env-Agrees p q e running s o' t r = tt
  on_env-Agrees p q e (done a) s o' t (f, r) = (f, (e, r))
  on_env-Agrees p q e (thrown err) s o' t (f, r) = (f, (e, r))

  on_env-Simulates :
      {A : Type 0} (m : Async S A) (n : Async T A)
      → Simulates Rel m n
      → Simulates (SessionRel Rel) (on_env m) (on_env n)
  on_env-Simulates m n sim s t (e, r) =
      on_env-Agrees s.position t.position e (m s.env).0 (m s.env).1 (n t.env).0 (n t.env).1
        (sim s.env t.env r)

-- The same as a record, which the rules are about: their programs are read off a goal.
pub record Follows {S T A : Type 0} (Rel : S → T → Type 0) (m : Async S A) (n : Async T A)
    : Type 0 where
  pub simulates : Simulates Rel m n

module _ {S T : Type 0} {Rel : S → T → Type 0} where
  pub pure-Follows : {A : Type 0} (a : A) → Follows Rel (pure a) (pure a)
  pure-Follows a = record { simulates = pure-Simulates Rel a }

  pub throw-Follows : {A : Type 0} (err : Thrown) → Follows {A = A} Rel (throw err) (throw err)
  throw-Follows err = record { simulates = throw-Simulates Rel err }

  pub >>=-Follows :
      {A B : Type 0} {m : Async S A} {n : Async T A} {f : A → Async S B} {g : A → Async T B}
      → Follows Rel m n
      → ((a : A) → Follows Rel (f a) (g a))
      → Follows Rel (m >>= f) (n >>= g)
  >>=-Follows {A} {B} {m} {n} {f} {g} sim sims = record {
    simulates =
        >>=-Simulates Rel (λ _. Unit) m n f g (λ s a e. tt) sim.simulates
          (λ a _. (sims a).simulates);
  }

  pub >>-Follows :
      {A B : Type 0} {m : Async S A} {n : Async T A} {k : Async S B} {l : Async T B}
      → Follows Rel m n
      → Follows Rel k l
      → Follows Rel (m >> k) (n >> l)
  >>-Follows sim sims = >>=-Follows sim (λ _. sims)

  pub try_catch-Follows :
      {A : Type 0} {m : Async S A} {n : Async T A} {f : Thrown → Async S A} {g : Thrown → Async T A}
      → Follows Rel m n
      → ((err : Thrown) → Follows Rel (f err) (g err))
      → Follows Rel (try_catch m f) (try_catch n g)
  try_catch-Follows {A} {m} {n} {f} {g} sim sims = record {
    simulates = try_catch-Simulates Rel m n f g sim.simulates (λ err. (sims err).simulates);
  }

  pub on_env-Follows :
      {A : Type 0} {m : Async S A} {n : Async T A}
      → Follows Rel m n
      → Follows (SessionRel Rel) (on_env m) (on_env n)
  on_env-Follows {A} {m} {n} sim = record { simulates = on_env-Simulates Rel m n sim.simulates }

  pub if-Follows :
      {A : Type 0} {m k : Async S A} {n l : Async T A} (b : Bool)
      → Follows Rel m n
      → Follows Rel k l
      → Follows Rel (if b then m else k) (if b then n else l)
  if-Follows true sim sims = sim
  if-Follows false sim sims = sims
