-- ===== src/Base/Outcome.antt =====
-- The outcome of code that may throw.

-- The exceptions that the modelled code raises.
pub data Error : Type 0 where
  overflow_error invalid_argument runtime_error sink_overload malformed_ipc_request : Error

pub data Outcome {ℓ} (A : Type ℓ) : Type ℓ where
  ok : A → Outcome A
  throw : Error → Outcome A

infixl 5 ◌>>=◌
abbrev pub ◌>>=◌ {ℓ κ} : {A : Type ℓ} {B : Type κ} → Outcome A → (A → Outcome B) → Outcome B
ok a >>= f = f a
throw e >>= f = throw e
