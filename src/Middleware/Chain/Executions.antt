-- ===== src/Middleware/Chain/Executions.antt =====
-- The exceptions that leave an execution chain.
use fastapi_viewsets.Prelude.{List, [], ◌∷◌, none, some, ◌≡◌, refl, ap, sym, ◌∙◌, arith}
use fastapi_viewsets.Middleware.Chain.{
  Outcome, returned, raised, Step, Layer, translated, run_command_chain, run_execution_chain,
}

module _ {S E A : Type 0} where
  -- Without a translation an execution chain is the command chain of its hooks.
  pub run_execution_chain-none :
      (executors : List (Layer S E A)) (final_handler : Step S E A)
      → run_execution_chain none executors final_handler ≡ run_command_chain executors final_handler
  unfolding run_execution_chain run_command_chain
  run_execution_chain-none [] final_handler = refl
  run_execution_chain-none (m ∷ executors) final_handler =
      ap m (run_execution_chain-none executors final_handler)

  module _ (translate : E → E)
      (stable : (error : E) → translate (translate error) ≡ translate error) where
    translated_stable :
        (result : S × Outcome E A) (s : S) (error : E)
        → translated translate result ≡ (s, raised error)
        → translate error ≡ error
    translated_stable (s', returned a) s error h = ground arith
    translated_stable (s', raised inner) s error h =
        let same : translate inner ≡ error = ground arith in
        ap translate (sym same) ∙ stable inner ∙ same

    -- Where translating twice is translating once, an exception that leaves the chain is a translated one,
    -- whatever its hooks raise.
    pub run_execution_chain-translated :
        (executors : List (Layer S E A)) (final_handler : Step S E A) (s s' : S) (error : E)
        → run_execution_chain (some translate) executors final_handler s ≡ (s', raised error)
        → translate error ≡ error
    unfolding run_execution_chain
    run_execution_chain-translated [] final_handler s s' error h =
        translated_stable (final_handler s) s' error h
    run_execution_chain-translated (m ∷ executors) final_handler s s' error h =
        translated_stable (m (run_execution_chain (some translate) executors final_handler) s) s'
          error h
