-- ===== src/Middleware/Chain/Examples.antt =====
-- Runs of the chains on concrete middleware: the state is the list of what was entered and left.
use fastapi_viewsets.Prelude.{ℕ, ◌+◌, List, [], ◌∷◌, ◌++◌, some, map, ◌≡◌, refl}
use fastapi_viewsets.Middleware.Chain.{
  Outcome, returned, raised, Step, run_command_chain, run_execution_chain, run_executor_started,
  run_transition_listeners,
}
use fastapi_viewsets.Middleware.Chain.Onion.{
  Hook, ends, goes_on, layer, enter, run_command_chain-enter,
}
use fastapi_viewsets.Middleware.Chain.Executions.{run_execution_chain-translated}

-- A middleware that logs its number when it is entered, and 10 more when it is left.
abbrev logging : ℕ → Hook (List ℕ) ℕ ℕ
logging n log = (log ++ n ∷ [], goes_on (λ result. (result.0 ++ (n + 10) ∷ [], result.1)))

abbrev refusing : Hook (List ℕ) ℕ ℕ
refusing log = (log ++ 9 ∷ [], ends (raised 403))

-- A replay: an answer without the rest of the chain.
abbrev replaying : Hook (List ℕ) ℕ ℕ
replaying log = (log ++ 8 ∷ [], ends (returned 5))

abbrev answering : Step (List ℕ) ℕ ℕ
answering log = (log ++ 0 ∷ [], returned 7)

chain_order :
    run_command_chain (map layer (logging 1 ∷ logging 2 ∷ [])) answering []
    ≡ (1 ∷ 2 ∷ 0 ∷ 12 ∷ 11 ∷ [], returned 7)
unfolding run_command_chain
chain_order = refl

refused_within :
    run_command_chain (map layer (logging 1 ∷ refusing ∷ logging 2 ∷ [])) answering []
    ≡ (1 ∷ 9 ∷ 11 ∷ [], raised 403)
unfolding run_command_chain
refused_within = refl

replayed_within :
    run_command_chain (map layer (logging 1 ∷ replaying ∷ logging 2 ∷ [])) answering []
    ≡ (1 ∷ 8 ∷ 11 ∷ [], returned 5)
unfolding run_command_chain
replayed_within = refl

abbrev note : ℕ → Outcome ℕ (Unit {0}) → Step (List ℕ) ℕ (Unit {0})
note n outcome log = (log ++ n ∷ [], outcome)

started_until :
    run_executor_started (note 1 (returned tt) ∷ note 2 (raised 5) ∷ note 3 (returned tt) ∷ []) []
    ≡ (1 ∷ 2 ∷ [], raised 5)
unfolding run_executor_started
started_until = refl

listeners_all :
    run_transition_listeners (note 1 (raised 5) ∷ note 2 (returned tt) ∷ []) [] ≡ 1 ∷ 2 ∷ []
unfolding run_transition_listeners
listeners_all = refl

-- Every exception as 502.
abbrev as_bad_gateway : ℕ → ℕ
as_bad_gateway error = 502

abbrev raising : Step (List ℕ) ℕ ℕ
raising log = (log ++ 0 ∷ [], raised 13)

run_command_chain-enter_example :
    run_command_chain (map layer (logging 1 ∷ replaying ∷ logging 2 ∷ [])) answering []
    ≡ enter (logging 1 ∷ replaying ∷ logging 2 ∷ []) answering [] []
run_command_chain-enter_example =
    run_command_chain-enter (logging 1 ∷ replaying ∷ logging 2 ∷ []) answering []

translated_result :
    run_execution_chain (some as_bad_gateway) (layer (logging 1) ∷ []) raising []
    ≡ (1 ∷ 0 ∷ 11 ∷ [], raised 502)
unfolding run_execution_chain
translated_result = refl

run_execution_chain-translated_example : as_bad_gateway 502 ≡ 502
run_execution_chain-translated_example =
    run_execution_chain-translated as_bad_gateway (λ error. refl) (layer (logging 1) ∷ []) raising
      [] (1 ∷ 0 ∷ 11 ∷ []) 502 translated_result
