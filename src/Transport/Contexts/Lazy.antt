-- ===== src/Transport/Contexts/Lazy.antt =====
-- `LazyObject` of fastapi_viewsets/context/__init__.py: a value that is computed on the first await. `R` is
-- the type of recipes. What a computation raises is not told apart.
use fastapi_viewsets.Prelude.{List, [], ◌∷◌, Option, none, some, ◌≡◌, refl, ◌∙◌, ap}
use fastapi_viewsets.Transport.Json.{Json}

-- `_future`: absent, running, done with a value, or done with an exception.
pub data Future : Type 0 where
  absent running failed : Future
  done : Json → Future

-- What a call of `resolve()` comes to: a value, an awaitable, or an exception.
pub data Resolution : Type 0 where
  value : Json → Resolution
  awaitable raised : Resolution

-- What reading `value` comes to: a value, the `RuntimeError` of a read before an await has ended, or what
-- the computation raised.
pub data Read : Type 0 where
  read : Json → Read
  not_awaited computation_failed : Read

pub record LazyObject (R : Type 0) : Type 0 where
  pub recipe : R
  pub preseeded : Option Json
  pub future : Future

-- the future that a call of `resolve()` leaves: none was made where it raised
abbrev pub future_of : Resolution → Future
future_of (value v) = done v
future_of awaitable = running
future_of raised = absent

-- what the awaitable ends in: a value, or an exception
abbrev pub ended_in : Option Json → Future
ended_in none = failed
ended_in (some v) = done v

abbrev pub value_at : Option Json → Future → Read
value_at (some v) future = read v
value_at none absent = not_awaited
value_at none running = not_awaited
value_at none failed = computation_failed
value_at none (done v) = read v

module _ {R : Type 0} where
  -- `__init__`
  abbrev pub new_object : R → LazyObject R
  new_object recipe = record { recipe = recipe; preseeded = none; future = absent }

  abbrev pub ensure_at :
      Future → Option Json → Resolution → LazyObject R → LazyObject R × Option Resolution
  ensure_at absent (some v) resolution o = (record o { future = done v }, none)
  ensure_at absent none resolution o = (record o { future = future_of resolution }, some resolution)
  ensure_at running preseeded resolution o = (o, none)
  ensure_at failed preseeded resolution o = (o, none)
  ensure_at (done v) preseeded resolution o = (o, none)

  -- `_ensure_future`, and the call of `resolve()` that it makes, if it makes one: `resolution` is what
  -- such a call comes to, and one that raises is raised to who awaits
  unfoldable pub ensure_future : Resolution → LazyObject R → LazyObject R × Option Resolution
  ensure_future resolution o = ensure_at o.future o.preseeded resolution o

  abbrev pub completed_at : Future → Option Json → LazyObject R → LazyObject R
  completed_at running result o = record o { future = ended_in result }
  completed_at absent result o = o
  completed_at failed result o = o
  completed_at (done old) result o = o

  -- the awaitable of `resolve()` ends
  unfoldable pub complete : Option Json → LazyObject R → LazyObject R
  complete result o = completed_at o.future result o

  -- `value`
  unfoldable pub value_of : LazyObject R → Read
  value_of o = value_at o.preseeded o.future

  abbrev pub payload_of : R → Read → Option (R × Option Json)
  payload_of recipe (read v) = some (recipe, some v)
  payload_of recipe not_awaited = some (recipe, none)
  payload_of recipe computation_failed = none

  -- `__serialize__`: the recipe, and the value where it is resolved; none for what a failed computation
  -- raises
  unfoldable pub serialize : LazyObject R → Option (R × Option Json)
  unfolding value_of
  serialize o = payload_of o.recipe (value_of o)

  -- `__deserialize__`
  unfoldable pub deserialize : R × Option Json → LazyObject R
  deserialize (recipe, resolved_value) = record (new_object recipe) { preseeded = resolved_value }

-- What happens to an object: an await begins, with what `resolve()` comes to if it is called, or the
-- computation ends.
pub data Event : Type 0 where
  awaited : Resolution → Event
  ended : Option Json → Event

-- Calls of `resolve()` in their order: each but the last raised.
abbrev pub AreTried : List Resolution → Type 0
AreTried [] = Unit
AreTried (raised ∷ calls) = AreTried calls
AreTried (value v ∷ calls) = calls ≡ []
AreTried (awaitable ∷ calls) = calls ≡ []

-- The calls of `resolve()` on an object whose payload carried a value, or none.
abbrev pub AreCalled : Option Json → List Resolution → Type 0
AreCalled none calls = AreTried calls
AreCalled (some v) calls = calls ≡ []

abbrev called : Option Resolution → List Resolution → List Resolution
called none calls = calls
called (some resolution) calls = resolution ∷ calls

-- An object that needs no call any more: it came with its value, or it has a future.
abbrev IsSettled : Option Json → Future → Type 0
IsSettled (some v) future = Unit
IsSettled none absent = ⊥
IsSettled none running = Unit
IsSettled none failed = Unit
IsSettled none (done v) = Unit

IsSettled-ended :
    (preseeded : Option Json) (result : Option Json) → IsSettled preseeded (ended_in result)
IsSettled-ended none none = tt
IsSettled-ended none (some v) = tt
IsSettled-ended (some w) result = tt

IsSettled-done : (preseeded : Option Json) (v : Json) → IsSettled preseeded (done v)
IsSettled-done none v = tt
IsSettled-done (some w) v = tt

module _ {R : Type 0} where
  -- The calls of `resolve()` that events make, with what each came to.
  unfoldable pub calls : List Event → LazyObject R → List Resolution
  unfolding ensure_future complete
  calls [] o = []
  calls (awaited resolution ∷ events) o =
      let (o', call) = ensure_future resolution o in called call (calls events o')
  calls (ended result ∷ events) o = calls events (complete result o)

  ensure_at-IsSettled :
      (future : Future) (preseeded : Option Json) (resolution : Resolution) (o : LazyObject R)
      → IsSettled preseeded future
      → IsSettled o.preseeded o.future
      → (let made = ensure_at future preseeded resolution o in
          (made.1 ≡ none) × IsSettled made.0.preseeded made.0.future)
  ensure_at-IsSettled absent (some v) resolution o h kept = (refl, IsSettled-done o.preseeded v)
  ensure_at-IsSettled absent none resolution o h kept = absurd h
  ensure_at-IsSettled running preseeded resolution o h kept = (refl, kept)
  ensure_at-IsSettled failed preseeded resolution o h kept = (refl, kept)
  ensure_at-IsSettled (done v) preseeded resolution o h kept = (refl, kept)

  completed_at-IsSettled :
      (future : Future) (result : Option Json) (o : LazyObject R)
      → IsSettled o.preseeded o.future
      → IsSettled (completed_at future result o).preseeded (completed_at future result o).future
  completed_at-IsSettled running result o kept = IsSettled-ended o.preseeded result
  completed_at-IsSettled absent result o kept = kept
  completed_at-IsSettled failed result o kept = kept
  completed_at-IsSettled (done old) result o kept = kept

  no_calls :
      (events : List Event) (o : LazyObject R)
      → IsSettled o.preseeded o.future
      → calls events o ≡ []
  unfolding calls ensure_future complete
  no_calls [] o h = refl
  no_calls (awaited resolution ∷ events) o h =
      let (uncalled, settled) = ensure_at-IsSettled o.future o.preseeded resolution o h h in
      ap (λ call. called call (calls events (ensure_future resolution o).0)) uncalled
      ∙ no_calls events (ensure_future resolution o).0 settled
  no_calls (ended result ∷ events) o h =
      no_calls events (complete result o) (completed_at-IsSettled o.future result o h)

  calls-new_object :
      (events : List Event) (recipe : R) → AreTried (calls events (new_object recipe))
  unfolding calls ensure_future complete
  calls-new_object [] recipe = tt
  calls-new_object (awaited (value v) ∷ events) recipe =
      no_calls events (record (new_object recipe) { future = done v }) tt
  calls-new_object (awaited awaitable ∷ events) recipe =
      no_calls events (record (new_object recipe) { future = running }) tt
  calls-new_object (awaited raised ∷ events) recipe = calls-new_object events recipe
  calls-new_object (ended result ∷ events) recipe = calls-new_object events recipe

  -- Whatever awaits and ends come to an object rebuilt from what it serialized: `resolve()` is called again
  -- only after calls that all raised, so never once a call has returned a value or an awaitable, however
  -- that ends; and it is not called at all where the value came with the recipe.
  pub calls-deserialize :
      (events : List Event) (recipe : R) (resolved_value : Option Json)
      → AreCalled resolved_value (calls events (deserialize (recipe, resolved_value)))
  unfolding deserialize
  calls-deserialize events recipe none = calls-new_object events recipe
  calls-deserialize events recipe (some v) = no_calls events _ tt
