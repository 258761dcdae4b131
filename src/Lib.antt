-- ===== src/Lib.antt =====
-- fastapi-viewsets: list pages, events and command middleware of the Python package
-- `fastapi_viewsets/`.
--
-- A viewset serves a resource over HTTP, over a multiplexed websocket or through Celery. This library
-- models the parts of it that keep state or decide an answer, on the numbers, lists and records of the
-- code.
--
-- The list pipeline (Listing): `get_list` of fastapi_viewsets/mixins.py runs a request through a
-- filter stage, a sort stage and a page. For the cursor shape, `_prepare_cursor` decodes the client's
-- cursor (fastapi_viewsets/cursor.py), appends the primary key to the ordering, reverses it when
-- reading backwards and adds a predicate to the filters; `_cursor_page` cuts the page with `take_page`
-- (fastapi_viewsets/list_query.py) and anchors new cursors at its edge rows.
--   Listing/Values: the values of a row's fields, and how Python compares them.
--   Listing/Order: `compare_in_order`, `cursor_keys`, `CursorPredicate.matches`, `sort_list`.
--   Listing/Cursors: `CursorState.encode`, `decode_cursor` with its errors, `make_predicate`.
--   Listing/Pages: `ListQuery`, `_prepare_cursor`, `apply_filter`, `apply_sort`, `_cursor_anchors`,
--   `_cursor_page`, `get_list` for the cursor shape, both forms of `take_page`.
--   Listing/Paginated: the plain and the paginated shape of `apply_pagination`.
--   Listing/SortParam: `parse_sort_param` and `check_declared_sort` of fastapi_viewsets/mixins.py.
--   Listing/Shapes: `resolve_shapes` of fastapi_viewsets/list_shapes.py.
--   Listing/Sorting, Cuts, Keys, Rows, RoundTrip, Reading, Requests, Selected, Turning, Walk, Lazy: the
--   proofs.
--   Listing/Wire, Examples: a concrete codec, and runs.
-- JSON and base64 are a `Codec` with the law that decoding undoes encoding; the SHA-256 fingerprint,
-- pydantic's coercion and the filter model's test are functions that the viewset declares. A walk takes
-- as fuel the number of pages to read; more fuel than the answer has rows is enough, since a page that
-- promises more holds at least one row.
--
-- Events (Events): publishing an event appends it to its topic's log and delivers it to the sockets
-- subscribed to the topic; a poll asks for the events after a cursor.
--   Events/Store: `next_rev` and `MemoryEventStore` of fastapi_viewsets/events/store.py. Each call takes
--   the reading of the clock. A history, the list of all events of a topic, is the abstract state that
--   the log keeps the end of.
--   Events/Topics: fastapi_viewsets/events/topics.py. The regular expressions are functions on code
--   points.
--   Events/Delivery: the registries of fastapi_viewsets/events/delivery.py, and the push of one event to one
--   subscription. Python's `is` compares the identity that each subscription object has.
--   Events/Sources: the declared sources of fastapi_viewsets/events/sources.py and their topics.
--   Events/Authorizers: `authorize_topic` of fastapi_viewsets/events/authorizers.py, and its authorizers.
--   Events/Scopes: fastapi_viewsets/events/scopes.py: the gate run that answers a scope's key, over the
--   command chain of Middleware/Chain, and the cached resolution of a client topic to its store topic.
--   Events/Changes: `ChangeEvents` of fastapi_viewsets/events/changes.py, which publishes after a write.
--   Changes/Traces notes every call of the action and of `publish` in a list, in its order.
--   Events/Polling: `poll` of fastapi_viewsets/events/viewset.py: it admits each cursor's topic by the
--   authorizers and answers the admitted ones from the store. `resolve_topic`, the delivery filters and
--   what other tasks do to the store between two awaits are parameters.
--   Events/Subscribing: `subscribe` and `unsubscribe` of fastapi_viewsets/events/viewset.py, over the gate,
--   the subscriptions and the store; what other tasks do to the subscriptions while the gate runs is a
--   parameter.
--   Events/Publishing: `publish`, `Source.publish` and `Source.drop` of fastapi_viewsets/events/sources.py.
--   Events/Scopes/Names: the declared scope names, with `event_scope` and `scope_of`. A class stands for
--   itself by a number; the MRO, the dotted paths and the mounts of classes are a record. The walk over the
--   mounts takes as fuel its number of rounds, as in SubViewsets.
--
-- Collections (Collection): `CollectionViewSet` of fastapi_viewsets/collection_viewset.py serves a container
-- in memory; modelled over a list of models.
--   Collection, Items, Keys: its operations, what they do to the items, and the keys of new items.
--
-- Middleware (Middleware): calls pass a chain of middleware before the action runs.
--   Middleware/RateLimiter: the in-memory counter of fastapi_viewsets/middleware/rate_limiter.py.
--   Middleware/Idempotency: the in-process storage of fastapi_viewsets/middleware/idempotency.py. What a
--   call does between two suspensions is one function on the instance, and the events of concurrent
--   calls are a list of such steps with their clock readings.
--   Middleware/Chain: the chains of fastapi_viewsets/middleware/__init__.py round an action's call. A step
--   is a function on the state that the code round it changes.
--   Middleware/Configuration: fastapi_viewsets/action_configuration.py, with `ByAction` of
--   fastapi_viewsets/context/__init__.py: what configures an action, and which middleware it adds.
--
-- Filters (Filters): fastapi_viewsets/filters: the operators, the parameters that a declaration makes, and
-- Filters/Compilers, the backends' translations, which compile a whole set of filters or none of it.
--
-- Sub-viewsets (SubViewsets): fastapi_viewsets/decorators/sub_viewsets.py mounts a viewset under another.
-- The walk over what is mounted under a class takes as fuel its number of rounds; one more than the
-- classes that can be reached is enough, since each round takes a class that is pending once.
--
-- Transport (Transport): what a process sends another as JSON.
--   Transport/Json: JSON values. Transport/Values: `to_jsonable` and `from_jsonable` of
--   fastapi_viewsets/context/__init__.py over nested values.
--   Transport/Contexts: `Context`, its JSON form, `clone_for_command`, `build_context` and `LazyObject`.
--   Transport/Errors: the JSON form of an error, of fastapi_viewsets/exceptions.py.
--   Transport/Reader: the calls that wait for a worker, of
--   fastapi_viewsets/decorators/celery_viewset/result_reader.py. A future stands for itself by a number.
-- A lazy value's `resolve()` may return a value or an awaitable or raise; what an awaitable ends in is an
-- event of its own.
-- An application's classes are a record of what they serialize and rebuild; the JSON encoder and decoder
-- of the settings are functions.
--
-- Prelude has the shared names: Boolean tests on numbers, equality as an interface, texts as lists of
-- code points, lists measured by native numbers, dicts and dicts of dicts as association lists.
--
-- Not modelled: the Redis storages (their logic runs in Redis scripts), the Django backend, Celery's
-- worker and the websocket transport, FastAPI routing and OpenAPI, the timeouts and tasks of a push,
-- the count of a lazy source, the TypeScript client. Clock readings and limits are whole numbers of one
-- unit, so that no rounding is modelled.
pub mod Prelude
pub mod Events
pub mod Listing
pub mod Middleware
pub mod Collection
pub mod SubViewsets
pub mod Transport
pub mod Filters
