-- ===== src/Lib.antt =====
-- recallum: a memory service for agents (recallum/, Python). Agents store short memories, recall
-- them by search, and open a session with a snapshot of what matters. This library models the parts
-- of the service that decide who is let in, what is shown, what is counted and what is dropped; the
-- paths below start at the repository's root.
--
-- Parts and files.
--   Prelude     Boolean tests and lists over native numbers, and a stable sort (`list.sort`, `sorted`)
--               with the theorems that it permutes and orders.
--   Model       recallum/db/models.py: the row of a memory; the domain errors of
--               recallum/memory/__init__.py.
--   Limits      recallum/memory/limits.py: the tunables with their defaults and bounds.
--   Visibility  recallum/memory/__init__.py: `MemoryVisibility.from_filters`, `includes`.
--   Budget      recallum/memory/token_budget.py: `estimate_tokens`, `validate_strategy`,
--               `reorder_by_strategy`, `pack_by_token_budget`.
--   Profile     recallum/memory/profile_select.py: the static and the dynamic slice
--               (`select_profile_slices`, `select_dynamic_slice`, `_budget_items`, `_clip_content`), and
--               `apply_profile_budget`, which reserves room for them in a context call.
--   Context     recallum/memory/context.py: `SessionContextBudget.assemble`, whose loops are
--               `first_seen`, `fill_items` (one category), `fill_groups` and `gaps`. It uses Budget for
--               token estimates and the order of categories.
--   Fusion      recallum/retrieval.py: `reciprocal_rank_fusion` and `_add_competition_vote`.
--   Usage       recallum/memory/usage.py: `UsageBuffer`. `_accumulate` is `accumulate`, `_requeue` is
--               `requeue`, `_apply` is `apply`, `_finish` is `finish`; what `flush` and `flush_user` do
--               under the lock is `flush_take` and `flush_user_take`.
--   Rebuild     recallum/memory/profile_rebuild.py: `ProfileRebuildQueue`. `flush` and the inner loop of
--               `_run` (`drain_loop`) take the calls of `enqueue` that other tasks make while they await.
--   Telemetry   recallum/telemetry/buffer.py: `TelemetryBuffer`, with recallum/telemetry/events.py;
--               its metrics snapshot is in Telemetry/Metrics.
--   Session     recallum/auth/web_sessions.py: `WebSessionService` (`create`, `resolve`,
--               `_still_rotating`) over the rows and updates of
--               recallum/db/repositories/web_session_repo.py.
--   Validate    recallum/memory/service.py: `_normalize_content`, `_clamp_limit`, `_validate_ttl` and
--               others that check a write's arguments.
--   Samples     memories that the examples share; each part has its tests in Examples.
--   Store       recallum/db/repositories/memory_repo.py: the rows of the memories and the methods that write
--               them. Store has `create_memory` and `find_active_by_hash`, Edit the methods that
--               write one memory, Bulk those that write several; the unique index is `clashes`. System
--               has the sequences of writes and the invariant.
--   Service     recallum/memory/service.py: the checks of a draft (`check_draft`) and, in Remember,
--               `_remember_in_session`; in Loop the attempts of `remember`; in Revise `update`, `merge`,
--               `reassign_project` (`reassign`), `reconfirm` and `forget`. Perform runs any of these calls.
--   Limiter     recallum/http_boundary.py: `FixedWindowLimiter` (`reserve_many`, `_evict_expired`,
--               `_evict_for_capacity`, `_release_locked`).
--   Hygiene     recallum/hygiene.py: `_cluster_by_bucket` (`find`, `union`, the loops `union_all`, `group_all`
--               and `clusters_of`); in Contradictions `_find_contradictions` and `build_hygiene_report`.
--               Forest has the union-find's invariant, Joined and Exact what its roots decide.
--   Auth        recallum/auth/middleware.py: `TokenAuthenticator`, whose `authenticate` is `begin`, `query`
--               and `finish`, over the tables of recallum/db/repositories/api_key_repo.py; in Users
--               recallum/db/repositories/user_repo.py and recallum/auth/api_keys.py. Stepped has the steps
--               of the tables and the authenticator.
--   Boundary    recallum/http_boundary.py: `resolve_client_ip`, `RequestBodyLimitMiddleware.__call__`
--               (`limit_body`, whose loop is `receive_all`); in Guard `MCPAuthRateLimitMiddleware.__call__`
--               over Limiter, as two steps (`admit`, `finish`) around `await self.app`.
--
-- The service writes through Store, calls Visibility to filter, Fusion to rank, Budget to pack what
-- a recall returns, Profile and then Context for a snapshot, and reports what it served to Usage;
-- writes put keys into Rebuild; every tool call puts an event into Telemetry. The web interface
-- signs its users in by Session, and a tool call is authenticated by Auth. Hygiene reads the
-- memories and pairs of a snapshot of Store's rows.
--
-- Conventions. A mutable object is a record, and a method a function from the record to the new
-- one. A section that holds an asyncio lock is one function, since no other task runs in it; tasks
-- that interleave are steps of a relation (Usage/System, Telemetry/System, Auth/Stepped,
-- Boundary/Guard). A call of
-- the repository or of the rebuild is an argument that tells whether it returns or raises. `none`
-- stands for the IndexError of `popleft` on an empty deque, and a domain error is a `raise`.
-- Identifiers are numbers in the order of their 128 bits, instants are numbers of microseconds, and
-- a text that is measured or cut is the list of its code points. Numbers are unbounded, as Python's
-- are; a subtraction that can go below 0 is written with what the code does there. Floats are an
-- abstract type with the operations that Limits, Fusion and Telemetry/Metrics use. SHA-256 is a
-- parameter of Profile and of Service; in Session a token stands for its hash, and in Auth it is a
-- parameter. A transaction of Store is one function; where it raises, it is rolled back, and no
-- database comes with the failure. In Service what other tasks do between the reads and the writes
-- of an attempt is a function of the table, so that a theorem that says nothing of it holds for
-- every interleaving. The clock of the process and that of the database are one.
--
-- Fuel. Loops over a list recur on it. The worker loop of Rebuild runs on fuel, of which one more
-- than the number of keys that are pending or asked for meanwhile is enough. The recursive query of Session's `revoke_chain`
-- follows at most as many rows as the table has, which is every row of a chain that does not return
-- to itself. The loop of `remember` counts down its three attempts. The eviction of Limiter has a
-- turn for each bucket, and each of its turns takes one away. The loop of Boundary ends with its
-- messages. A `find` of Hygiene has one more turn than there are pairs of one bucket, since a union
-- makes the paths one longer at most.
--
-- Not modelled. The rest of recallum/memory/service.py and of
-- recallum/db/repositories/memory_repo.py, the other repositories, passwords, the other HTTP and
-- MCP layers (of http_boundary.py the checks of Host and Origin), configuration from the
-- environment, the command line, embeddings, migrations; in the modelled files the worker tasks
-- with their timers and events, `start` and `stop`, logging and `items_from_stored`.
pub mod Auth
pub mod Boundary
pub mod Budget
pub mod Context
pub mod Fusion
pub mod Hygiene
pub mod Limiter
pub mod Limits
pub mod Model
pub mod Prelude
pub mod Profile
pub mod Rebuild
pub mod Samples
pub mod Service
pub mod Session
pub mod Store
pub mod Telemetry
pub mod Usage
pub mod Validate
pub mod Visibility
