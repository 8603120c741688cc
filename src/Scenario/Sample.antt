-- ===== src/Scenario/Sample.antt =====
-- A small server with the workflow of another program, and a platform on which programs run.
use idempotent_transformer.Common.{String, ◌≡◌, refl, sym, ap, ◌∙◌, List, [], ◌∷◌, ◌++◌}
use idempotent_transformer.Async.{done}
use idempotent_transformer.Server.Requests.Sample.{libraries, started}
use idempotent_transformer.Server.Rpc.Sample.{transport, getters, getters-OneofGetters}
use idempotent_transformer.Memo.World.{World, Platform, IsFaithful}
use idempotent_transformer.Scenario.Codec.{Codec}
use idempotent_transformer.Scenario.Refinement.{IsFresh}

abbrev pub platform : {R U : Type 0} → Codec R → R → Platform R U
platform c promise = record {
  libraries = libraries;
  transport = transport;
  getters = getters;
  pack = c.encode;
  unpack = λ l. done (c.decode l).0;
  promise = promise;
  set_timeout = λ tenths e. (done tt, e);
}

append-nil : {A : Type 0} (l : List A) → l ++ [] ≡ l
append-nil [] = refl
append-nil (x ∷ l) = ap (λ m. x ∷ m) (append-nil l)

pub platform-IsFaithful :
    {R U : Type 0} (c : Codec R) (promise : R) → IsFaithful (platform {U = U} c promise)
platform-IsFaithful c promise = record {
  details = λ s. refl;
  sent = λ b. refl;
  oneof = getters-OneofGetters;
  unpacks = λ r.
      ap (λ l. done (c.decode l).0) (sym (append-nil (c.encode r)))
      ∙ ap (λ x. done x.0) (c.law r []);
}

abbrev pub world : {U : Type 0} → U → World U
world u = record { database = started; user = u }

pub started-IsFresh : (Mine : String → Type 0) → IsFresh Mine started
started-IsFresh Mine = record { checkpoints = λ id p own. refl; leases = λ id p own. refl }
