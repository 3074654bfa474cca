-- ===== src/Outcome.antt =====
-- How a Python call ends: by a value, by an `Exception`, or by a cancellation, which is a
-- `BaseException` and passes every `except Exception`. The exceptions are those that the library
-- raises (the texts of the messages are left out) and those of the wrapped function, which are told
-- apart by an identity.
use resilience4py.Prelude.{ℕ}

pub data Exception : Type 0 where
  user : ℕ → Exception
  runtime_error : Exception
  value_error : Exception
  assertion_error : Exception
  call_not_permitted : Exception
  request_not_permitted : Exception
  bulkhead_full : Exception
  attribute_error : Exception
  key_error : Exception
  overflow_error : Exception
  recursion_error : Exception
  max_retries_exceeded : Exception → ℕ → Exception

pub data Outcome {ℓ} (A : Type ℓ) : Type ℓ where
  returned : A → Outcome A
  raised : Exception → Outcome A
  cancelled : Outcome A
