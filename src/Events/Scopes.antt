-- ===== src/Events/Scopes.antt =====
-- fastapi_viewsets/events/scopes.py: the store topic of a client topic. `E` is the type of exceptions that the
-- code it calls raises, `W` what middleware change, `K` the keys of the gate's cache.
pub mod Gates
pub mod Names
pub mod Resolutions
use fastapi_viewsets.Prelude.{
  ℕ, Text, Dict, lookup, insert, list_eq, nat_eq, Equality, ◌==◌, leb, if◌then◌else◌, List, [], ◌∷◌,
  ◌++◌, Option, none, some, Bool, true, false, ◌||◌, not,
}
use fastapi_viewsets.Events.Topics.{
  Checked, ScopeKey, scope_key_text, scoped_topic, is_viewset_topic,
}
use fastapi_viewsets.Events.Topics
use fastapi_viewsets.Events.Authorizers.{Gated, ok, topic_refused, scope_missing, raised}
use fastapi_viewsets.Events.Polling.{ResolvedTopic}
use fastapi_viewsets.Middleware.Chain.{Outcome, returned, Step, Layer, run_command_chain}
use fastapi_viewsets.Middleware.Chain

-- What a scope's code raises: `ValueError` or `TypeError` for a key, or what its resolver raises.
pub data ScopeError (E : Type 0) : Type 0 where
  value_error type_error : ScopeError E
  other_error : E → ScopeError E

module _ {E : Type 0} where
  abbrev pub checked_key : Checked Text → Outcome (ScopeError E) (Option Text)
  checked_key (Topics.ok key) = returned (some key)
  checked_key Topics.value_error = Chain.raised value_error
  checked_key Topics.type_error = Chain.raised type_error

  -- `resolve_scope`, with what the resolver answers
  unfoldable pub resolve_scope : Outcome E (Option ScopeKey) → Outcome (ScopeError E) (Option Text)
  resolve_scope (returned none) = returned none
  resolve_scope (returned (some key)) = checked_key (scope_key_text key)
  resolve_scope (Chain.raised error) = Chain.raised (other_error error)

-- `reached` and `key` of `_gate_run`, beside what the middleware change.
pub record Gate (W : Type 0) : Type 0 where
  pub reached : Bool
  pub key : Option Text
  pub world : W

abbrev pub is_error : Option ℕ → Bool
is_error none = false
is_error (some status) = leb 400 status

module _ {E : Type 0} where
  abbrev pub keyed : Option Text → Gated (ScopeError E) Text
  keyed none = scope_missing
  keyed (some key) = ok key

module _ {E W : Type 0} where
  abbrev pub answered_at :
      Gate W → Outcome (ScopeError E) (Option Text) → Gate W × Outcome (ScopeError E) (Option ℕ)
  answered_at s (returned key) = (record s { reached = true; key = key }, returned none)
  answered_at s (Chain.raised error) = (record s { reached = true }, Chain.raised error)

  -- `terminal`; a result is its status code
  unfoldable pub terminal :
      (W → Outcome E (Option ScopeKey)) → Step (Gate W) (ScopeError E) (Option ℕ)
  unfolding resolve_scope
  terminal resolver s = answered_at s (resolve_scope (resolver s.world))

  -- the `depends()` of the middleware, in their order
  unfoldable pub run_depends :
      List (Step W (ScopeError E) (Unit {0})) → Step W (ScopeError E) (Unit {0})
  run_depends [] w = (w, returned tt)
  run_depends (depends ∷ later) w = Chain.and_then (depends w) (run_depends later)

  -- the end of `_gate_run`
  abbrev pub gate_answer : Gate W × Outcome (ScopeError E) (Option ℕ) → Gated (ScopeError E) Text
  gate_answer (s, Chain.raised error) = raised error
  gate_answer (s, returned status) =
      if not s.reached || is_error status then topic_refused else keyed s.key

  abbrev pub past_depends :
      List (Layer (Gate W) (ScopeError E) (Option ℕ))
      → (W → Outcome E (Option ScopeKey))
      → W × Outcome (ScopeError E) (Unit {0})
      → Gated (ScopeError E) Text
  past_depends middlewares resolver (w, Chain.raised error) = raised error
  past_depends middlewares resolver (w, returned _) = gate_answer (
      run_command_chain middlewares (terminal resolver)
        (record { reached = false; key = none; world = w }))

  -- `_gate_run`: what the route's dependencies answer, `build_context` with the `depends()` of the middleware
  -- as steps, and the calls of the middleware
  unfoldable pub gate_run :
      Outcome (ScopeError E) Bool
      → List (Step W (ScopeError E) (Unit {0}))
      → List (Layer (Gate W) (ScopeError E) (Option ℕ))
      → (W → Outcome E (Option ScopeKey))
      → W
      → Gated (ScopeError E) Text
  unfolding run_depends terminal
  gate_run (Chain.raised error) depends middlewares resolver w = raised error
  gate_run (returned false) depends middlewares resolver w = topic_refused
  gate_run (returned true) depends middlewares resolver w =
      past_depends middlewares resolver (run_depends depends w)

-- `ViewsetMatch` with the scope of its class: the scope's name, and the gate's key in the cache.
pub record Match (K : Type 0) : Type 0 where
  pub scope : Option Text
  pub cache_key : K

module _ {E : Type 0} where
  abbrev pub unscoped : Text → Gated (ScopeError E) ResolvedTopic
  unscoped topic = ok (record { topic = topic; store_topic = topic; scope = none })

  abbrev pub from_cache :
      Text → Gated (ScopeError E) (Text × Text) → Gated (ScopeError E) ResolvedTopic
  from_cache topic (ok (store_topic, key)) =
      ok (record { topic = topic; store_topic = store_topic; scope = some key })
  from_cache topic topic_refused = topic_refused
  from_cache topic scope_missing = scope_missing
  from_cache topic (raised error) = raised error

module _ {K E : Type 0} ⦃e : Equality K⦄ where
  -- the store topic of a gate's key; a `ValueError` of `scoped_topic` is raised past the cache
  abbrev pub stored :
      Text
      → K
      → Text
      → Checked Text
      → Dict K (Gated (ScopeError E) (Text × Text))
      → Dict K (Gated (ScopeError E) (Text × Text)) × Gated (ScopeError E) ResolvedTopic
  stored topic cache_key key (Topics.ok store_topic) cache =
      (insert cache_key (ok (store_topic, key)) cache, from_cache topic (ok (store_topic, key)))
  stored topic cache_key key Topics.value_error cache = (cache, raised value_error)
  stored topic cache_key key Topics.type_error cache = (cache, raised type_error)

  -- `resolve_topic` past the cache
  abbrev pub gated :
      Text
      → Text
      → K
      → Gated (ScopeError E) Text
      → Dict K (Gated (ScopeError E) (Text × Text))
      → Dict K (Gated (ScopeError E) (Text × Text)) × Gated (ScopeError E) ResolvedTopic
  gated topic name cache_key (ok key) cache =
      stored topic cache_key key (scoped_topic name (Topics.str key)) cache
  gated topic name cache_key topic_refused cache =
      (insert cache_key topic_refused cache, topic_refused)
  gated topic name cache_key scope_missing cache =
      (insert cache_key scope_missing cache, scope_missing)
  gated topic name cache_key (raised error) cache =
      (insert cache_key (raised error) cache, raised error)

  abbrev pub cached_or :
      Text
      → Text
      → K
      → Option (Gated (ScopeError E) (Text × Text))
      → Gated (ScopeError E) Text
      → Dict K (Gated (ScopeError E) (Text × Text))
      → Dict K (Gated (ScopeError E) (Text × Text)) × Gated (ScopeError E) ResolvedTopic
  cached_or topic name cache_key (some entry) gate cache = (cache, from_cache topic entry)
  cached_or topic name cache_key none gate cache = gated topic name cache_key gate cache

  abbrev pub matched :
      Text
      → Option (Match K)
      → Gated (ScopeError E) Text
      → Dict K (Gated (ScopeError E) (Text × Text))
      → Dict K (Gated (ScopeError E) (Text × Text)) × Gated (ScopeError E) ResolvedTopic
  matched topic none gate cache = (cache, unscoped topic)
  matched topic (some found) gate cache = elim found.scope [
    | none ↦ (cache, unscoped topic)
    | some name ↦ cached_or topic name found.cache_key (lookup found.cache_key cache) gate cache
  ]

  -- `resolve_topic`: `found` is what `match_viewset` answers, `gate` what `_gate_run` would answer now
  unfoldable pub resolve_topic :
      Text
      → Option (Match K)
      → Gated (ScopeError E) Text
      → Dict K (Gated (ScopeError E) (Text × Text))
      → Dict K (Gated (ScopeError E) (Text × Text)) × Gated (ScopeError E) ResolvedTopic
  resolve_topic topic found gate cache =
      if is_viewset_topic topic then matched topic found gate cache else (cache, unscoped topic)
