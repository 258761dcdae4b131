-- ===== src/Middleware/Chain/Onion.antt =====
-- The order in which a command chain enters and leaves its middleware.
use fastapi_viewsets.Prelude.{List, [], ◌∷◌, ◌++◌, map, ◌≡◌, refl, ap, sym}
use fastapi_viewsets.Middleware.Chain.{Outcome, Step, Layer, run_command_chain}

-- What a middleware turns to once it has worked: it ends with an answer or an exception of its own and the
-- rest of the chain does not run, or the rest runs and what it comes to is worked on.
pub data Turn (S E A : Type 0) : Type 0 where
  ends : Outcome E A → Turn S E A
  goes_on : (S × Outcome E A → S × Outcome E A) → Turn S E A

-- A middleware that awaits the rest of the chain at most once.
abbrev pub Hook : (S E A : Type 0) → Type 0
Hook S E A = S → S × Turn S E A

module _ {S E A : Type 0} where
  -- A chain of two lists of middleware is the first list's chain round the second's.
  pub run_command_chain-append :
      (outer inner : List (Layer S E A)) (final_handler : Step S E A)
      → run_command_chain (outer ++ inner) final_handler
        ≡ run_command_chain outer (run_command_chain inner final_handler)
  unfolding run_command_chain
  run_command_chain-append [] inner final_handler = refl
  run_command_chain-append (m ∷ outer) inner final_handler =
      ap m (run_command_chain-append outer inner final_handler)

  abbrev pub entering : Step S E A → S × Turn S E A → S × Outcome E A
  entering call_next (s, ends outcome) = (s, outcome)
  entering call_next (s, goes_on after) = after (call_next s)

  abbrev pub layer : Hook S E A → Layer S E A
  layer hook call_next s = entering call_next (hook s)

  -- The machine that a chain is: it enters one middleware after the other and keeps on a stack what those
  -- that went on do afterwards; the first that ends, or the handler, turns it, and it leaves them last in,
  -- first out.
  unfoldable pub leave :
      List (S × Outcome E A → S × Outcome E A) → S × Outcome E A → S × Outcome E A
  leave [] result = result
  leave (after ∷ entered) result = leave entered (after result)

  abbrev turn :
      List (S × Outcome E A → S × Outcome E A)
      → (List (S × Outcome E A → S × Outcome E A) → Step S E A)
      → S × Turn S E A
      → S × Outcome E A
  turn entered go_on (s, ends outcome) = leave entered (s, outcome)
  turn entered go_on (s, goes_on after) = go_on (after ∷ entered) s

  unfoldable pub enter :
      List (Hook S E A) → Step S E A → List (S × Outcome E A → S × Outcome E A) → Step S E A
  unfolding leave
  enter [] final_handler entered s = leave entered (final_handler s)
  enter (hook ∷ hooks) final_handler entered s = turn entered (enter hooks final_handler) (hook s)

  turn-entering :
      (entered : List (S × Outcome E A → S × Outcome E A))
      (go_on : List (S × Outcome E A → S × Outcome E A) → Step S E A) (call_next : Step S E A)
      (b : S × Turn S E A)
      → ((stack : List (S × Outcome E A → S × Outcome E A)) (s : S)
          → go_on stack s ≡ leave stack (call_next s))
      → turn entered go_on b ≡ leave entered (entering call_next b)
  unfolding leave
  turn-entering entered go_on call_next (s, ends outcome) h = refl
  turn-entering entered go_on call_next (s, goes_on after) h = h (after ∷ entered) s

  enter-run :
      (hooks : List (Hook S E A)) (final_handler : Step S E A)
      (entered : List (S × Outcome E A → S × Outcome E A)) (s : S)
      → enter hooks final_handler entered s
        ≡ leave entered (run_command_chain (map layer hooks) final_handler s)
  unfolding enter run_command_chain
  enter-run [] final_handler entered s = refl
  enter-run (hook ∷ hooks) final_handler entered s =
      turn-entering entered (enter hooks final_handler)
        (run_command_chain (map layer hooks) final_handler) (hook s) (enter-run hooks final_handler)

  -- A chain of middleware, each of which awaits the rest at most once, enters them in order until one ends
  -- without the rest, by an answer or an exception of its own, or the handler has run, and leaves those
  -- that went on in the opposite order.
  pub run_command_chain-enter :
      (hooks : List (Hook S E A)) (final_handler : Step S E A) (s : S)
      → run_command_chain (map layer hooks) final_handler s ≡ enter hooks final_handler [] s
  unfolding leave
  run_command_chain-enter hooks final_handler s = sym (enter-run hooks final_handler [] s)
