-- ===== src/Memo/Journal.antt =====
-- The results of one workflow in the promised state, as the journal that its runners write.
use idempotent_transformer.Common.{
  ℕ, zero, suc, String, ◌≡◌, refl, ap, ◌∙◌, Bool, true, false, ◌&&◌, Option, none, some, List, [],
  ◌∷◌, ◌++◌, length, ◌==◌, str_eq, if◌then◌else◌, arith,
}
use text.Mathlib.TextPositions.{eq_refl}
use idempotent_transformer.Async.{Thrown, done, thrown, Async}
use idempotent_transformer.Server.{with_cell}
use idempotent_transformer.Memo.{Memo, Spec, first_of}

-- `list[index]`
abbrev pub nth {ℓ} : {A : Type ℓ} → List A → ℕ → Option A
nth [] p = none
nth (x ∷ xs) zero = some x
nth (x ∷ xs) (suc p) = nth xs p

module _ {ℓ} {A : Type ℓ} where
  pub nth-length : (xs : List A) → nth xs (length xs) ≡ none
  nth-length [] = refl
  nth-length (x ∷ xs) = nth-length xs

  nth-++ :
      (xs : List A) (x : A) (p : ℕ)
      → nth (xs ++ x ∷ []) p ≡ (if length xs == p then some x else nth xs p)
  nth-++ [] x zero = refl
  nth-++ [] x (suc p) = ground arith
  nth-++ (y ∷ ys) x zero = ground arith
  nth-++ (y ∷ ys) x (suc p) = nth-++ ys x p ∙ ground arith

  length-++ : (xs : List A) (x : A) → length (xs ++ x ∷ []) ≡ suc (length xs)
  length-++ [] x = refl
  length-++ (y ∷ ys) x = ap suc (length-++ ys x)

-- How a call ends, and in which states.
module _ {S A : Type 0} where
  pub record Returns (m : Async S A) (s : S) (a : A) (After : S → Type 0) : Type 0 where
    pub ended : (m s).0 ≡ done a
    pub after : After (m s).1

  pub record Throws (m : Async S A) (s : S) (err : Thrown) (After : S → Type 0) : Type 0 where
    pub ended : (m s).0 ≡ thrown err
    pub after : After (m s).1

  pub returned :
      (m : Async S A) (s : S) {a : A} {After : S → Type 0}
      → ((m s).0 ≡ done a) × After (m s).1
      → Returns m s a After
  returned m s (e, after) = record { ended = e; after = after }

  pub threw :
      (m : Async S A) (s : S) {err : Thrown} {After : S → Type 0}
      → ((m s).0 ≡ thrown err) × After (m s).1
      → Throws m s err After
  threw m s (e, after) = record { ended = e; after = after }

module _ {R : Type 0} (id : String) where
  -- The tables of all other workflows are the same.
  pub record Elsewhere (m n : Memo R) : Type 0 where
    pub now : n.now ≡ m.now
    pub tokens : (other : String) → str_eq id other ≡ false → n.tokens other ≡ m.tokens other
    pub results :
        (other : String) (p : ℕ) → str_eq id other ≡ false → n.results other p ≡ m.results other p
    pub leased :
        (other : String) (p : ℕ) → str_eq id other ≡ false → n.leased other p ≡ m.leased other p

  -- The journal has these results, and a lease at its end or nowhere.
  pub record Journal (token : Option ℕ) (rs : List (String × R)) (busy : Bool) (m : Memo R)
      : Type 0 where
    pub current : m.tokens id ≡ token
    pub entries : (p : ℕ) → m.results id p ≡ nth rs p
    pub lease : (p : ℕ) → m.leased id p ≡ (busy && length rs == p)

module _ {R U : Type 0} where
  -- What the workflow does not touch.
  abbrev pub Stable : String → (Spec R U → Type 0) → Type 0
  Stable id P =
      (a : Spec R U) (m : Memo R) → Elsewhere id a.memo m → P a → P (record a { memo = m })

module _ {R : Type 0} (id : String) (token : Option ℕ) (rs : List (String × R)) (m : Memo R) where
  pub busy-Journal :
      (b : Bool)
      → Journal id token rs b m
      → (c : Bool)
      → Journal id token rs c (record m { leased = with_cell m.leased id (length rs) c })
  busy-Journal b j c = record {
    current = j.current;
    entries = j.entries;
    lease = λ p. let before = j.lease p in rw (eq_refl id) (ground arith);
  }

  pub stored-Journal :
      (key : String) (r : R)
      → Journal id token rs true m
      → Journal id token (rs ++ (key, r) ∷ []) false (record m {
        results = with_cell m.results id (length rs) (first_of (m.results id (length rs)) (key, r));
        leased = with_cell m.leased id (length rs) false;
      })
  stored-Journal key r j = record {
    current = j.current;
    entries = λ p.
        let there = j.entries p in
        let empty = j.entries (length rs) ∙ nth-length rs in
        rw (eq_refl id, empty, nth-++ rs (key, r) p) (ground arith);
    lease = λ p. let before = j.lease p in rw (eq_refl id) (ground arith);
  }

-- A workflow does not touch the journal of another one.
pub other-Journal :
    {R : Type 0} (id other : String) (token : Option ℕ) (rs : List (String × R)) (busy : Bool)
    (m n : Memo R)
    → str_eq id other ≡ false
    → Elsewhere id m n
    → Journal other token rs busy m
    → Journal other token rs busy n
other-Journal id other token rs busy m n e same j = record {
  current = same.tokens other e ∙ j.current;
  entries = λ p. same.results other p e ∙ j.entries p;
  lease = λ p. same.leased other p e ∙ j.lease p;
}
