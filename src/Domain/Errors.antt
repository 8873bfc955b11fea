-- ===== src/Domain/Errors.antt =====
-- src/agentic_local_app/domain/errors.py: the error taxonomy and the normalized error.
use agentic_local_app.Base.{ℕ, ◌≡◌, Bool, Option, List, [], ◌∷◌, Enum, arith}

pub data ErrorType : Type 0 where
  authn_error authz_error network_error timeout_error rate_limit_error model_protocol_error
        model_context_window_error task_execution_error persistence_error budget_exceeded
        rotation_failed interrupted system_error :
      ErrorType

abbrev pub error_type_index : ErrorType → ℕ
error_type_index ErrorType.authn_error = 0
error_type_index ErrorType.authz_error = 1
error_type_index ErrorType.network_error = 2
error_type_index ErrorType.timeout_error = 3
error_type_index ErrorType.rate_limit_error = 4
error_type_index ErrorType.model_protocol_error = 5
error_type_index ErrorType.model_context_window_error = 6
error_type_index ErrorType.task_execution_error = 7
error_type_index ErrorType.persistence_error = 8
error_type_index ErrorType.budget_exceeded = 9
error_type_index ErrorType.rotation_failed = 10
error_type_index ErrorType.interrupted = 11
error_type_index ErrorType.system_error = 12

pub error_type_index_injective : (a b : ErrorType) → error_type_index a ≡ error_type_index b → a ≡ b
error_type_index_injective a b h = ground arith

instance abbrev pub error_type_enum : Enum ErrorType
error_type_enum = record { index = error_type_index; index_injective = error_type_index_injective }

pub data Severity : Type 0 where
  low medium high critical : Severity

abbrev pub retryable_error_types : List ErrorType
retryable_error_types =
    ErrorType.network_error ∷ ErrorType.timeout_error ∷ ErrorType.rate_limit_error ∷ []

-- `details` is a dictionary of which the program reads two entries: `transient is True`, and
-- `retry_after_ms` where it is an integer that is not a Boolean. A negative one has the effect
-- of 0, and is given as 0.
pub record Details : Type 0 where
  pub transient : Bool
  pub retry_after_ms : Option ℕ

-- An error code and an origin are texts; they are only carried along and compared.
pub record NormalizedError : Type 0 where
  pub error_type : ErrorType
  pub error_code : ℕ
  pub severity : Severity
  pub origin : ℕ
  pub retryable : Bool
  pub recoverable : Bool
  pub attempt : ℕ
  pub max_attempts : ℕ
  pub details : Details

unfoldable pub with_attempt : ℕ → ℕ → NormalizedError → NormalizedError
with_attempt attempt max_attempts e = record e { attempt = attempt; max_attempts = max_attempts }
