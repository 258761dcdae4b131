-- ===== src/Middleware/Chain.antt =====
-- fastapi_viewsets/middleware/__init__.py: the chains of middleware round an endpoint's call. A step is a
-- function on the state `S` that the call's code changes (its context, what middleware keep), with what it
-- returns or raises; a middleware is given the rest of the chain as `call_next` and decides when it runs.
pub mod Onion
pub mod Executions
pub mod Examples
use fastapi_viewsets.Prelude.{
  Text, if◌then◌else◌, List, [], ◌∷◌, Option, none, some, Bool, true, false, ◌||◌,
}

-- What an awaited call comes to.
pub data Outcome (E A : Type 0) : Type 0 where
  returned : A → Outcome E A
  raised : E → Outcome E A

abbrev pub Step : (S E A : Type 0) → Type 0
Step S E A = S → S × Outcome E A

-- `CommandMiddleware`, and a `Middleware.execute` hook
abbrev pub Layer : (S E A : Type 0) → Type 0
Layer S E A = Step S E A → Step S E A

module _ {S E A : Type 0} where
  -- `run_command_chain`
  unfoldable pub run_command_chain : List (Layer S E A) → Step S E A → Step S E A
  run_command_chain [] final_handler = final_handler
  run_command_chain (middleware ∷ middlewares) final_handler =
      middleware (run_command_chain middlewares final_handler)

  -- `_translated_step`, past its step
  abbrev pub translated : (E → E) → S × Outcome E A → S × Outcome E A
  translated translate (s, returned a) = (s, returned a)
  translated translate (s, raised error) = (s, raised (translate error))

  -- `_next` of `run_execution_chain`
  abbrev pub next : Option (E → E) → Step S E A → Step S E A
  next none step = step
  next (some translate) step = λ s. translated translate (step s)

  -- `run_execution_chain`: the `execute` hooks of the middleware that have one, the first outermost
  unfoldable pub run_execution_chain : Option (E → E) → List (Layer S E A) → Step S E A → Step S E A
  run_execution_chain translate [] final_handler = next translate final_handler
  run_execution_chain translate (execute ∷ executors) final_handler =
      next translate (execute (run_execution_chain translate executors final_handler))

module _ {S E : Type 0} where
  -- `run_executor_started`: the hooks in order; an exception stops the loop
  abbrev pub and_then : S × Outcome E (Unit {0}) → Step S E (Unit {0}) → S × Outcome E (Unit {0})
  and_then (s, returned _) later = later s
  and_then (s, raised error) later = (s, raised error)

  unfoldable pub run_executor_started : List (Step S E (Unit {0})) → Step S E (Unit {0})
  run_executor_started [] s = (s, returned tt)
  run_executor_started (hook ∷ hooks) s = and_then (hook s) (run_executor_started hooks)

  -- `run_transition_listeners`: a listener that raises or runs out of time is logged, and the next one runs
  unfoldable pub run_transition_listeners : List (Step S E (Unit {0})) → S → S
  run_transition_listeners [] s = s
  run_transition_listeners (listener ∷ listeners) s =
      run_transition_listeners listeners (listener s).0

-- `any_modifies_response_shape`
unfoldable pub any_modifies_response_shape : List Bool → Bool
any_modifies_response_shape [] = false
any_modifies_response_shape (modifies ∷ middlewares) =
    modifies || any_modifies_response_shape middlewares
