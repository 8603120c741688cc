-- ===== src/Execute/Protocol/Releases.antt =====
-- When `execute` gives a lease back, read off the protocol.
use idempotent_transformer.Common.{ℕ, ◌+◌, ◌≡◌, ◌≢◌, refl, List, [], ◌∷◌, arith}
use idempotent_transformer.Async.{thrown}
use idempotent_transformer.Trace.{Event, release, settle}
use idempotent_transformer.Execute.Protocol.{
  Phase, asking, received, rejected, violation, step, phase_of,
}
use idempotent_transformer.Execute.Protocol.Meaning.{step_violation}

module _ {R : Type 0} where
  abbrev releasing : Event R → ℕ
  releasing (release i) = 1
  releasing _ = 0

  abbrev rejecting : Event R → ℕ
  rejecting (settle (thrown err)) = 1
  rejecting _ = 0

  -- How often a lease was given back.
  abbrev pub releases : List (Event R) → ℕ
  releases [] = 0
  releases (event ∷ log) = releasing event + releases log

  -- How often the promise of the task was rejected.
  abbrev pub rejections : List (Event R) → ℕ
  rejections [] = 0
  rejections (event ∷ log) = rejecting event + rejections log

-- A rejection whose release is still to come.
abbrev pub pending : Phase → ℕ
pending rejected = 1
pending _ = 0

module _ {R : Type 0} (position timeout : ℕ) where
  step-pending :
      (q : Phase) (event : Event R)
      → step position timeout q event ≢ violation
      → releasing event + pending (step position timeout q event) ≡ rejecting event + pending q
  unfolding step
  step-pending (asking n) event h = ground arith
  step-pending (received n) event h = ground arith
  step-pending _ event h = ground arith

  pub releases-pending :
      (log : List (Event R))
      → phase_of position timeout log ≢ violation
      → releases log + pending (phase_of position timeout log) ≡ rejections log
  releases-pending [] h = refl
  releases-pending (event ∷ log) h = ground (
    arith,
    step-pending (phase_of position timeout log) event h,
    step_violation position timeout event,
    releases-pending log,
  )
