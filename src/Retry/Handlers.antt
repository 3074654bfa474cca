-- ===== src/Retry/Handlers.antt =====
-- The handlers of retry/retry.py: the dictionary with its four entries, the four methods that register, and the
-- delivery of an event; and the constructor.
use resilience4py.Prelude.{ℕ, Bool, Option, none, some, List, [], ◌∷◌, ◌++◌, if◌then◌else◌}
use resilience4py.Outcome.{Outcome, returned, raised, cancelled, value_error}
use resilience4py.Retry.Config.{RetryConfig, validate}
use resilience4py.Core.Delivery.{Acts, Delivery, deliver_from}
use resilience4py.Retry.Loop.{
  RetryEvent, on_retry_event, on_success_event, on_error_event, on_ignored_error_event,
}

-- The keys of `_event_handlers`.
pub data HandlerKind : Type 0 where
  on_retry on_success on_error on_ignored_error : HandlerKind

pub record Handlers : Type 0 where
  pub retry_handlers : List ℕ
  pub success_handlers : List ℕ
  pub error_handlers : List ℕ
  pub ignored_error_handlers : List ℕ

abbrev pub no_handlers : Handlers
no_handlers = record {
  retry_handlers = [];
  success_handlers = [];
  error_handlers = [];
  ignored_error_handlers = [];
}

-- `self._event_handlers.get(event_type, [])`
unfoldable pub handlers_for : HandlerKind → Handlers → List ℕ
handlers_for on_retry d = d.retry_handlers
handlers_for on_success d = d.success_handlers
handlers_for on_error d = d.error_handlers
handlers_for on_ignored_error d = d.ignored_error_handlers

-- The methods `on_retry`, `on_success`, `on_error` and `on_ignored_error`.
unfoldable pub register_handler : HandlerKind → ℕ → Handlers → Handlers
register_handler on_retry h d = record d { retry_handlers = d.retry_handlers ++ h ∷ [] }
register_handler on_success h d = record d { success_handlers = d.success_handlers ++ h ∷ [] }
register_handler on_error h d = record d { error_handlers = d.error_handlers ++ h ∷ [] }
register_handler on_ignored_error h d = record d {
  ignored_error_handlers = d.ignored_error_handlers ++ h ∷ [];
}

-- `_publish_event`
unfoldable pub publish_to_retry_handlers :
    Acts Handlers → ℕ → HandlerKind → Handlers → Option (Delivery Handlers)
unfolding handlers_for
publish_to_retry_handlers acts fuel kind d = deliver_from (handlers_for kind) acts fuel 0 d

-- The key under which each `_emit_*_event` publishes.
unfoldable pub kind_of : {A : Type 0} → RetryEvent A → HandlerKind
kind_of (on_retry_event _ _ _) = on_retry
kind_of (on_success_event _ _) = on_success
kind_of (on_error_event _ _) = on_error
kind_of (on_ignored_error_event _ _) = on_ignored_error

-- The constructor: an object is its configuration and its handlers, and `default` is `RetryConfig()`.
module _ {A : Type 0} where
  unfoldable pub new_retry :
      RetryConfig A → Bool → Option (RetryConfig A) → Outcome (RetryConfig A × Handlers)
  new_retry default name_is_empty given =
      let config : RetryConfig A = elim given [ none ↦ default | some c ↦ c ] in
      if name_is_empty then raised value_error else elim (validate config) [
        | returned _ ↦ returned (config, no_handlers)
        | raised e ↦ raised e
        | cancelled ↦ cancelled
      ]
