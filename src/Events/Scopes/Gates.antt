-- ===== src/Events/Scopes/Gates.antt =====
-- What a gate run answers is the resolver's: `_gate_run` of fastapi_viewsets/events/scopes.py.
use fastapi_viewsets.Prelude.{
  ℕ, Text, List, [], ◌∷◌, Option, none, some, Bool, true, false, ◌||◌, not, All, ◌≡◌, refl, ap, ◌∙◌,
  arith, Bool-cases, inl, inr,
}
use fastapi_viewsets.Events.Topics.{ScopeKey}
use fastapi_viewsets.Events.Authorizers.{ok}
use fastapi_viewsets.Events.Scopes.{
  ScopeError, resolve_scope, Gate, answered_at, terminal, run_depends, is_error, keyed, gate_answer,
  past_depends, gate_run,
}
use fastapi_viewsets.Middleware.Chain.{Outcome, returned, Step, Layer, run_command_chain}
use fastapi_viewsets.Middleware.Chain

module _ {E W : Type 0} (resolver : W → Outcome E (Option ScopeKey)) where
  -- The key, where there is one, is what the resolver answered at some point.
  abbrev pub IsAnswered : Option Text → Type 0
  IsAnswered key =
      (k : Text) → key ≡ some k → (w : W) × (resolve_scope (resolver w) ≡ returned (some k))

  -- A middleware that changes the gate's key only by its call of the next step.
  abbrev pub KeepsGate : Layer (Gate W) (ScopeError E) (Option ℕ) → Type 0
  KeepsGate middleware =
      (call_next : Step (Gate W) (ScopeError E) (Option ℕ))
      → ((s : Gate W) → IsAnswered s.key → IsAnswered (call_next s).0.key)
      → (s : Gate W) → IsAnswered s.key
      → IsAnswered (middleware call_next s).0.key

  terminal-IsAnswered : (s : Gate W) → IsAnswered s.key → IsAnswered (terminal resolver s).0.key
  unfolding terminal
  terminal-IsAnswered s h = at (resolve_scope (resolver s.world)) refl
    where
      at :
          (found : Outcome (ScopeError E) (Option Text))
          → resolve_scope (resolver s.world) ≡ found
          → IsAnswered (answered_at s found).0.key
      at (returned key) e = λ k same. (s.world, e ∙ ap returned same)
      at (Chain.raised error) e = h

  chain-IsAnswered :
      (middlewares : List (Layer (Gate W) (ScopeError E) (Option ℕ)))
      → All KeepsGate middlewares
      → (s : Gate W) → IsAnswered s.key
      → IsAnswered (run_command_chain middlewares (terminal resolver) s).0.key
  unfolding run_command_chain
  chain-IsAnswered [] keep s h = terminal-IsAnswered s h
  chain-IsAnswered (middleware ∷ middlewares) keep s h =
      keep.0 (run_command_chain middlewares (terminal resolver))
        (chain-IsAnswered middlewares keep.1) s h

  keyed-IsAnswered :
      (found : Option Text) (key : Text)
      → IsAnswered found
      → keyed {E = E} found ≡ ok key
      → (w : W) × (resolve_scope (resolver w) ≡ returned (some key))
  keyed-IsAnswered none key h e = absurd (ground (arith, e))
  keyed-IsAnswered (some k) key h e = h key (ground (arith, e))

  gate_answer-IsAnswered :
      (result : Gate W × Outcome (ScopeError E) (Option ℕ)) (key : Text)
      → IsAnswered result.0.key
      → gate_answer result ≡ ok key
      → (result.0.reached ≡ true) × ((w : W) × (resolve_scope (resolver w) ≡ returned (some key)))
  gate_answer-IsAnswered (s, Chain.raised error) key h e = absurd (ground (arith, e))
  gate_answer-IsAnswered (s, returned status) key h e =
      elim (Bool-cases (not s.reached || is_error status)) [
        | inl refused ↦ absurd (ground (arith, rw refused at e))
        | inr admitted ↦ (ground (arith, admitted), keyed-IsAnswered s.key key h (rw admitted at e))
      ]

  -- A gate run answers a key only where the route's dependencies admit the caller and the scope's resolver
  -- answers that key, whatever the middleware do; where they change the run's key only by calling the next
  -- step.
  pub gate_run-IsAnswered :
      (admits : Outcome (ScopeError E) Bool) (depends : List (Step W (ScopeError E) (Unit {0})))
      (middlewares : List (Layer (Gate W) (ScopeError E) (Option ℕ))) (w : W) (key : Text)
      → All KeepsGate middlewares
      → gate_run admits depends middlewares resolver w ≡ ok key
      → (admits ≡ returned true) × ((w' : W) × (resolve_scope (resolver w') ≡ returned (some key)))
  unfolding gate_run
  gate_run-IsAnswered (Chain.raised error) depends middlewares w key keep e =
      absurd (ground (arith, e))
  gate_run-IsAnswered (returned false) depends middlewares w key keep e = absurd (ground (arith, e))
  gate_run-IsAnswered (returned true) depends middlewares w key keep e =
      (refl, at (run_depends depends w) e)
    where
      at :
          (before : W × Outcome (ScopeError E) (Unit {0}))
          → past_depends middlewares resolver before ≡ ok key
          → (w' : W) × (resolve_scope (resolver w') ≡ returned (some key))
      at (w', Chain.raised error) e = absurd (ground (arith, e))
      at (w', returned _) e =
          let start : Gate W = record { reached = false; key = none; world = w' } in
          (gate_answer-IsAnswered (run_command_chain middlewares (terminal resolver) start) key
            (chain-IsAnswered middlewares keep start (λ k same. absurd (ground (arith, same)))) e).1
