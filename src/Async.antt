-- ===== src/Async.antt =====
-- Asynchronous JavaScript, run by one worker: what a call does to the state that it shares with the
-- rest of the world, and how it ends. The state comes back after a `throw` too, since what was
-- written stays written.
use idempotent_transformer.Common.{String, ◌≡◌, refl}

-- A thrown value: an `Error` with its `name` and `message`, or another value, as `String(err)`.
pub data Thrown : Type 0 where
  error : (name message : String) → Thrown
  non_error : String → Thrown

-- `running` stands for a loop that has not ended within its fuel.
pub data Outcome (A : Type 0) : Type 0 where
  done : A → Outcome A
  thrown : Thrown → Outcome A
  running : Outcome A

abbrev pub Async : Type 0 → Type 0 → Type 0
Async S A = S → Outcome A × S

module _ {S A : Type 0} where
  abbrev pub pure : A → Async S A
  pure a s = (done a, s)

  abbrev pub throw : Thrown → Async S A
  throw t s = (thrown t, s)

  abbrev pub out_of_fuel : Async S A
  out_of_fuel s = (running, s)

  abbrev pub gets : (S → A) → Async S A
  gets f s = (done (f s), s)

abbrev pub modify : {S : Type 0} → (S → S) → Async S (Unit {0})
modify f s = (done tt, f s)

module _ {S A B : Type 0} where
  -- What follows a call, by how the call ended.
  abbrev pub continue : Outcome A → (A → Async S B) → Async S B
  continue (done a) f s = f a s
  continue (thrown t) f s = (thrown t, s)
  continue running f s = (running, s)

  infixl 5 ◌>>=◌ ◌>>◌
  abbrev pub ◌>>=◌ : Async S A → (A → Async S B) → Async S B
  ◌>>=◌ m f s = let (o, s') = m s in continue o f s'

  abbrev pub ◌>>◌ : Async S A → Async S B → Async S B
  m >> k = m >>= λ _. k

module _ {S A : Type 0} where
  -- The handler of a `try` statement.
  abbrev pub handle : Outcome A → (Thrown → Async S A) → Async S A
  handle (done a) f s = (done a, s)
  handle (thrown t) f s = f t s
  handle running f s = (running, s)

  abbrev pub try_catch : Async S A → (Thrown → Async S A) → Async S A
  try_catch m f s = let (o, s') = m s in handle o f s'

module _ {S A B : Type 0} (f : A → Async S B) (M : Outcome A → S → Type 0)
    (Q : Outcome B → S → Type 0) where
  continue_rule :
      ((a : A) (t : S) → M (done a) t → Q (f a t).0 (f a t).1)
      → ((err : Thrown) (t : S) → M (thrown err) t → Q (thrown err) t)
      → ((t : S) → M running t → Q running t)
      → (o : Outcome A) (t : S) → M o t
      → Q (continue o f t).0 (continue o f t).1
  continue_rule d e r (done a) t i = d a t i
  continue_rule d e r (thrown err) t i = e err t i
  continue_rule d e r running t i = r t i

  -- A call and what follows it, by what is known when the call ends: `M` of the call, `Q` of both.
  pub >>=_rule :
      (m : Async S A) (s : S)
      → M (m s).0 (m s).1
      → ((a : A) (t : S) → M (done a) t → Q (f a t).0 (f a t).1)
      → ((err : Thrown) (t : S) → M (thrown err) t → Q (thrown err) t)
      → ((t : S) → M running t → Q running t)
      → Q (◌>>=◌ m f s).0 (◌>>=◌ m f s).1
  >>=_rule m s h d e r = continue_rule d e r (m s).0 (m s).1 h

module _ {S A B : Type 0} (f : A → Async S B) where
  -- A call that has returned, and what follows it.
  pub >>=-done : (m : Async S A) (s : S) (a : A) → (m s).0 ≡ done a → ◌>>=◌ m f s ≡ f a (m s).1
  >>=-done m s a e = rw (e, ◌>>=◌) refl
