-- ===== src/Memo/Reflects.antt =====
-- When the tables of the server are those that the promise speaks of: it forgets the times at which rows
-- were written, the leases behind one bit, and the encoding of results.
use idempotent_transformer.Common.{ℕ, String, ◌≡◌, false, Option, none, some, List}
use idempotent_transformer.Server.{Database}
use idempotent_transformer.Server.Requests.Durability.{content}
use idempotent_transformer.Memo.{Memo, Spec}
use idempotent_transformer.Memo.World.{World}

abbrev pub packed :
    {R : Type 0} → (R → List ℕ) → Option (String × R) → Option (String × Option (List ℕ))
packed pack none = none
packed pack (some (key, r)) = some (key, some (pack r))

module _ (Mine : String → Type 0) {R : Type 0} (pack : R → List ℕ) where
  -- The workflows that the promise speaks of are those of `Mine`: the server may have others.
  pub record Holds (m : Memo R) (d : Database) : Type 0 where
    pub now : d.now ≡ m.now
    pub tokens : (id : String) → Mine id → d.fencing_tokens id ≡ m.tokens id
    pub rows : (id : String) → Mine id → d.workflows id ≡ m.rows id
    pub results :
        (id : String) (p : ℕ)
        → Mine id
        → content (d.checkpoints id p) ≡ packed pack (m.results id p)
    pub leases : (id : String) (p : ℕ) → Mine id → m.leased id p ≡ false → d.leases id p ≡ none

  abbrev pub Reflects : {U : Type 0} → Spec R U → World U → Type 0
  Reflects a e = Holds a.memo e.database × (e.user ≡ a.user)
