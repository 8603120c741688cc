-- ===== src/Loop.antt =====
-- A `while (true)` loop over asynchronous rounds, with fuel, and the two rules by which its users are
-- proved: one for any fuel, and one for enough of it.
use idempotent_transformer.Common.{ℕ, zero, suc, ◌<◌, arith}
use idempotent_transformer.Async.{Outcome, done, thrown, running, Async, pure, out_of_fuel, ◌>>=◌}

-- How one round ends: the loop ends too, by `break` or `return`, or goes on with new variables.
pub data Round (V A : Type 0) : Type 0 where
  stop : A → Round V A
  again : V → Round V A

module _ {S V A : Type 0} where
  abbrev pub next_round : (V → Async S A) → Round V A → Async S A
  next_round loop (stop a) = pure a
  next_round loop (again v) = loop v

  unfoldable pub loop : (V → Async S (Round V A)) → ℕ → V → Async S A
  loop round zero v = out_of_fuel
  loop round (suc fuel) v = round v >>= next_round (loop round fuel)

  -- What a round has to establish: `I` where the loop goes on, and `Q` where it ends.
  abbrev pub AfterRound :
      (V → S → Type 0) → (Outcome A → S → Type 0) → Outcome (Round V A) → S → Type 0
  AfterRound I Q (done (stop a)) s = Q (done a) s
  AfterRound I Q (done (again v)) s = I v s
  AfterRound I Q (thrown t) s = Q (thrown t) s
  AfterRound I Q running s = Q running s

  module _ (I : V → S → Type 0) (Q : Outcome A → S → Type 0) where
    next_lem :
        (rest : V → Async S A)
        → ((v : V) (s : S) → I v s → let (o, t) = rest v s in Q o t)
        → (o : Outcome (Round V A)) (s : S) → AfterRound I Q o s
        → let (o', t) = ◌>>=◌ (λ x. (o, x)) (next_round rest) s in Q o' t
    next_lem rest k (done (stop a)) s q = q
    next_lem rest k (done (again v)) s i = k v s i
    next_lem rest k (thrown t) s q = q
    next_lem rest k running s q = q

  module _ (I : V → S → Type 0) (Q : Outcome A → S → Type 0) (round : V → Async S (Round V A)) where
    -- Any fuel: if `I` leads to `Q` where the fuel runs out, `Q` holds of how the loop ends.
    pub loop_inv :
        ((v : V) (s : S) → I v s → let (o, t) = round v s in AfterRound I Q o t)
        → ((v : V) (s : S) → I v s → Q running s)
        → (fuel : ℕ) (v : V) (s : S) → I v s
        → let (o, t) = loop round fuel v s in Q o t
    unfolding loop
    loop_inv step spent zero v s i = spent v s i
    loop_inv step spent (suc fuel) v s i =
        let (o, t) = round v s in
        next_lem I Q (loop round fuel) (loop_inv step spent fuel) o t (step v s i)

    -- Enough fuel, by a measure below it that each round lowers: the fuel does not run out.
    pub loop_total :
        (measure : V → S → ℕ)
        → ((v : V) (s : S)
            → I v s
            → let (o, t) = round v s in
              AfterRound (λ v' s'. I v' s' × (measure v' s' < measure v s)) Q o t)
        → (fuel : ℕ) (v : V) (s : S) → measure v s < fuel
        → I v s
        → let (o, t) = loop round fuel v s in Q o t
    unfolding loop
    loop_total measure step zero v s m i = absurd (omega arith)
    loop_total measure step (suc fuel) v s m i =
        let (o, t) = round v s in
        next_lem (λ v' s'. I v' s' × (measure v' s' < measure v s)) Q (loop round fuel)
          (λ v' s' j. loop_total measure step fuel v' s' (omega arith) j.0) o t (step v s i)
