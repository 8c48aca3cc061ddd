-- ===== src/Wire/Router.antt =====
-- `Router` (src/scs/wire/router.py) and the error categories of src/scs/wire/models.py. A handler
-- ends in its value or in the exception that it raises; what the handlers do else is theirs.
use scs.Base.{
  is_space, Bool, true, false, Option, none, some, List, [], ◌∷◌, Text, codes, Outcome, ok, err,
  ◌>>◌, raise_if, Error, key_error, value_error, type_error, frame_error, busy_error, text_eq, not,
  ◌||◌, is_some, if◌then◌else◌,
}

pub data ErrorCode : Type 0 where
  bad_request unknown_method incompatible_protocol unavailable internal : ErrorCode

-- Without the message.
pub record WireError : Type 0 where
  pub code : ErrorCode
  pub retryable : Bool

pub record DispatchResult {ℓ} (Value : Type ℓ) : Type ℓ where
  pub value : Option Value
  pub error : Option WireError

-- A handler, and whether it is a coroutine function.
pub record Handler (Params Value : Type 0) : Type 0 where
  pub run : Params → Outcome Value
  pub is_async : Bool

abbrev pub ends_in_space : Text → Bool
ends_in_space [] = false
ends_in_space (c ∷ []) = is_space c
ends_in_space (c ∷ d ∷ cs) = ends_in_space (d ∷ cs)

-- `not name or name.strip() != name`
unfoldable pub is_irregular : Text → Bool
is_irregular [] = true
is_irregular (c ∷ cs) = is_space c || ends_in_space (c ∷ cs)

-- `_handlers`: the names with their handlers, the last registered first.
abbrev pub Handlers : Type 0 → Type 0 → Type 0
Handlers Params Value = List (Text × Handler Params Value)

-- The `except` clauses; pydantic's ValidationError and FrameError are ValueErrors.
abbrev pub category : Error → WireError
category key_error = record { code = bad_request; retryable = false }
category type_error = record { code = bad_request; retryable = false }
category value_error = record { code = bad_request; retryable = false }
category frame_error = record { code = bad_request; retryable = false }
category busy_error = record { code = unavailable; retryable = true }
category _ = record { code = internal; retryable = false }

unfoldable pub contained {ℓ} : {Value : Type ℓ} → Outcome Value → DispatchResult Value
contained (ok value) = record { value = some value; error = none }
contained (err e) = record { value = none; error = some (category e) }

-- What is reported to the observer: the method and "error" or "ok".
abbrev pub observation {ℓ} : {Value : Type ℓ} → Text → DispatchResult Value → Text × Text
observation method result = (method, if is_some result.error then codes "error" else codes "ok")

module _ {Params Value : Type 0} where
  unfoldable pub find_handler : Text → Handlers Params Value → Option (Handler Params Value)
  find_handler name [] = none
  find_handler name ((known, handler) ∷ rest) =
      let later = find_handler name rest in if text_eq known name then some handler else later

  -- `method(name)(handler)`
  unfoldable pub register_method :
      Text → Handler Params Value → Handlers Params Value → Outcome (Handlers Params Value)
  unfolding is_irregular find_handler
  register_method name handler handlers = do
    raise_if (is_irregular name) value_error
    raise_if (is_some (find_handler name handlers)) value_error
    raise_if (not handler.is_async) type_error
    ok ((name, handler) ∷ handlers)

  -- The answer, and what the observer is called with; what the observer raises is dropped.
  unfoldable pub dispatch_to :
      Text → Params → Option (Handler Params Value) → DispatchResult Value × Option (Text × Text)
  unfolding contained
  dispatch_to method params none = (
    record { value = none; error = some (record { code = unknown_method; retryable = false }) },
    none,
  )
  dispatch_to method params (some handler) =
      let result = contained (handler.run params) in (result, some (observation method result))

  unfoldable pub dispatch :
      Text → Params → Handlers Params Value → DispatchResult Value × Option (Text × Text)
  unfolding dispatch_to
  dispatch method params handlers = dispatch_to method params (find_handler method handlers)
