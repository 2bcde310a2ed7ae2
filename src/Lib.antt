-- ===== src/Lib.antt =====
-- Orkiva: a bridge between agents that work in threads, and a worker that wakes the agents.
--
-- Agents and people call the bridge (apps/bridge-api/src) with a token (packages/auth/src): they
-- create threads, post, read and acknowledge messages, and ask for an agent to be woken, which
-- leaves a trigger job for the worker. An operator has a command line (apps/operator-cli/src). The
-- packages and applications share a domain (packages/domain/src): threads with a status,
-- numbered messages, a cursor for what each participant has read, and the sessions of agents, kept
-- alive by heartbeats. The supervisor worker (apps/supervisor-worker/src) runs in ticks: it looks
-- for participants with unread messages who are asleep, puts stale runtimes offline, and works off
-- a queue of triggers: each is delivered to its runtime, deferred, tried again, handed to a
-- fallback, or given up.
--
-- Which file models which part:
--   Domain/Errors   packages/domain/src/errors.ts: error codes and checks of single values
--   Domain/Thread   packages/domain/src/thread.ts: createThread, transitionThreadStatus
--   Domain/Message  packages/domain/src/message.ts: createMessage, the numbering of messages
--   Domain/Cursor   packages/domain/src/cursor.ts: acknowledgeRead, calculateUnreadCount
--   Domain/Session  packages/domain/src/session.ts: applySessionHeartbeat, isSessionStale,
--                   findLatestResumableSession
--   Auth            packages/auth/src/claims.ts, roles.ts, errors.ts
--   Bridge/ThreadStore, SessionStore, TriggerStore
--                   apps/bridge-api/src/thread-store.ts, session-store.ts, trigger-store.ts: the
--                   in-memory stores
--   Bridge/Errors   apps/bridge-api/src/app.ts: mapUnknownError and what it maps
--   Bridge/Requests the same file and packages/protocol/src/v1: requests and responses
--   Bridge/Dependencies
--                   the same file: what the handlers are given, and the checks that they share
--   Bridge/Handlers the same file: methodHandlers, one child for each group of methods
--   Bridge/Server   the same file: the bearer token, the route of the methods, the error handler
--   Bridge/Memory   the handlers' dependencies made of the in-memory stores
--   Operator/Commands
--                   apps/operator-cli/src/commands.ts: parseOperatorCommand
--   Operator/Service
--                   apps/operator-cli/src/service.ts: OperatorCliService over its repository
--   Worker/Jobs     apps/supervisor-worker/src/trigger-queue.ts: the types, and what a store and
--                   the executors are to the processor
--   Worker/JobStore the same file: InMemoryTriggerQueueStore
--   Worker/Queue    the same file: TriggerQueueProcessor; its rate limit and loop guard are in
--                   Worker/Queue/Guards
--   Worker/Executor apps/supervisor-worker/src/runtime-trigger-executor.ts
--   Worker/Fallback apps/supervisor-worker/src/runtime-fallback.ts
--   Worker/Registry apps/supervisor-worker/src/runtime-registry.ts: the in-memory store and the
--                   service
--   Worker/Unread   apps/supervisor-worker/src/unread-reconciliation.ts: the service, and the
--                   in-memory stores
--   Shared          tests on numbers, lists, results, text, dictionaries, sorting, and calls that
--                   change a state and may throw
-- What is shown of the bridge as a whole stands in Bridge/Access, Bridge/Server/Denials, Bridge/Invariants, Bridge/Posts,
-- Bridge/Waking, Bridge/Closing and Bridge/Reading.
-- A module's children hold what is proved about it, by topic; its Tests hold concrete runs.
--
-- How the code is read:
--   A class is a record of its fields, and a method a function from the state before to its result
--   and the state after. A function that throws returns a `Checked`, an error code or a value. The
--   messages and contexts of errors, and the `details` of outcomes, are left out: no code reads
--   them back.
--   A handler of the bridge is an action: from a state to a result, which may be thrown, and the
--   state after, which stays written where a call throws later. The handlers are written over a
--   record of their dependencies, and so for any stores; what stands between two of its calls, as
--   another request, is the dependency's to say. Over the in-memory stores the n-th reading of the
--   clock and the n-th generated id are arguments.
--   A payload is what its schema has parsed: texts are trimmed and not empty, numbers whole. A
--   response is not parsed again. Equality of metadata, node's isDeepStrictEqual, is an argument,
--   and where a repeated post needs it, that it takes metadata for equal to itself.
--   A token's claims are texts, whole numbers or something else; what verifies the token is a
--   library's.
--   A `Date` that comes from outside may be invalid; one that is stored is its milliseconds since
--   1970, a natural number. The clock, `new Date()`, is the argument `now`. Comparisons of
--   differences of times have the subtraction moved to the other side, so that nothing stops at 0.
--   A number that comes from outside is a natural number, negative, or not whole; integers are
--   exact, and the rounding of numbers above 2^53 is not modelled.
--   A `Map` is a list of pairs in order of insertion, and keys are the strings that the code puts
--   together. Sorting is stable insertion, as the language defines it.
--   Loops over lists are recursion on the list; the loop over attempts to resume is recursion on
--   how many are left, and so is the loop over attempts to post. The code has no loop that needs
--   fuel; the reader of a thread page by page, who is a client of the code, has as fuel the number
--   of pages, and one more than the messages left is enough.
--   A store, a registry, a terminal adapter, an executor of commands is an argument of what uses
--   it, over a state of any type.
--   The reading of a number from a text, `Number(text)`, is an argument; that a number is read as it
--   is written is a hypothesis where it is needed. What the operator's service asks of its
--   repository at the same time is asked in the order of the text.
--   The reason for a blocked thread is data; the code stores its text.
--
-- Not modelled: request ids, headers, metrics and the other routes of the bridge's server; the text
-- of a thread's summary and the payloads of audit events; the verification of tokens; the stores
-- over a database; the terminal adapter's own steps; entry points, logs and configuration; what
-- happens when two ticks overlap; an executor that throws.
pub mod Shared
pub mod Domain
pub mod Auth
pub mod Worker
pub mod Bridge
pub mod Operator
