-- ===== src/Lib.antt =====
-- Looms: durable agents, workflows and approvals as event-sourced runs
-- (https://looms.sh; packages/* of the repository).
--
-- A run is a log of events. Its state is a fold of them: `foldEvent` of packages/core/src/fold.ts
-- applies the runtime's protocol, hands the event to the module code of one thread, and reconciles
-- the effects that the thread then enables with those that are outstanding. A host appends events
-- to a store, folds them, runs outstanding effects, and appends their outcomes.
--
-- Files.
--   Prelude, Prelude/*: tests, lists, dictionaries and decimal text that the parts share.
--   Core/Json, Core/Equality, Core/Wire: JSON values (types.ts), `jsonEquals` of fold.ts, and the
--     JSON of an effect.
--   Core/Ids, Core/Envelope, Core/Effects, Core/Thread, Core/State: the data of packages/core/src
--     (ids.ts, envelope.ts, effects.ts, thread.ts, state.ts), one record or data type for each
--     interface or union.
--   Core/Fold/*: packages/core/src/fold.ts. Changes has the small updates, Executions and
--     Protocol/* the cases of `applyProtocol`, Reconcile `stableEffectId`, `mapEffects` and
--     `reconcileEffects`, Deliver `deliver`, `forgetCompletedEffects` and `failUnhandledEffect`,
--     Step `foldEvent` and `foldRun`. The other children hold theorems, Tests runs and instances.
--   Core/Store/*: packages/core/src/store.ts. Log has the log of a run and `append`, Reads `read`,
--     `trim`, `subscribe` and `trimEventStoreSafely`, Steps the operations on a log as a step
--     relation. The other children hold theorems, Tests runs and instances.
--   Core/History/*: Cursor, Snapshots, Replay and Attempts are cursor.ts, snapshots.ts, replay.ts and
--     attempts.ts of packages/core/src. The other children hold theorems, Tests runs and instances.
--   Core/Coalesce/*: packages/core/src/coalesce.ts. Key has the buffer of one key and its operations,
--     Steps the fibers as a step relation. The other children hold theorems, Tests runs and instances.
--   Core/Fork/*: packages/core/src/fork.ts. Scan has `scanSource` and `failureOrigin`, Plan
--     `planFork`; Trace tells from the folds of prefixes where a fork cuts. The other children
--     hold theorems, Tests runs and instances.
--   Core/Match: packages/core/src/match.ts, with theorems and runs in its children.
--   Workflow/Graph/*: packages/workflow/src/graph.ts. Data has the nodes and their states, Sort
--     `topologicalSort`, Activity `isEdgeActive`, `isSettled`, `getReadyNodeIds`,
--     `getSkippableNodeIds`, `getUnusedFallbackIds` and `nodeResults`. The other children hold
--     theorems, Tests runs and instances.
--   Core/Ids/*: packages/core/src/ids.ts. Deterministic has `deterministicThreadId` and
--     `deterministicRunId`, Parse `parseEffectId`; Parsed holds theorems, Tests runs and instances.
--   Workflow/Threads/*: packages/workflow/src/threads.ts. Data has the state and the events,
--     Invocations and Effects what `effects` asks for, Pending how a node's work is dropped and a
--     map's outputs are recorded, Nodes, Requests and Answers the cases of `step`, and Step the rest
--     of them and the step. The other children hold theorems, Tests runs and instances.
--   Workflow/Scheduler: `scheduleEvents` of packages/workflow/src/effects.ts, which starts and skips the nodes
--     of a workflow and ends it, with theorems and runs in its children.
--   Schedule/*: packages/schedule/src. Specs and Gaps are specs.ts, Data the data of definitions.ts,
--     events.ts and the inputs of effects.ts, Next and Fire `planNextAt`, `scheduledNext` and
--     `fireEffect` of effects.ts, Update and Step threads.ts. The other children hold theorems,
--     Tests runs and instances.
--   Runtime/Waits: `waitSatisfiedEvents` of packages/runtime/src/helpers.ts, with theorems and runs
--     in its children.
--   Runtime/Retry: packages/runtime/src/retry-policy.ts, and `createEffectFailedEvent` of helpers.ts,
--     with theorems and runs in its children.
--   Runtime/Cascade: `descendantThreadIds` of packages/core/src/state.ts and `cascadedCancellations` of
--     helpers.ts, with theorems and runs in its children.
--   Runtime/Synthesis: `synthesizedThreadFailed` of helpers.ts, and the events that a wake adds to a batch
--     (wake-engine.ts), with theorems and runs in its children.
--
-- How it is modelled. A case of `applyProtocol` that returns the state unchanged is none. An object
-- used as a dictionary is a list of entries in insertion order (Prelude/Dict): a key that looks like
-- an array index, which JavaScript would list first, and a key that names a member of
-- Object.prototype are not told apart from other keys. Numbers are natural: attempts, sequence
-- numbers, sizes and epoch milliseconds. A string property that is absent, null or undefined is none
-- where the code does not tell these apart. An event's type is a constructor for each string that
-- the fold's switch names, and `other` for the rest.
--
-- Parameters. The modules' own code (`initialState`, `step`, `effects` of a thread definition) and
-- the schema decoders of the effect library are arguments, with no hypothesis on them.
-- The size of an event's JSON text (`utf8JsonBytes` of limits.ts) is an argument of the store's append,
-- with no hypothesis on it.
-- The schema decoders of a snapshot and the schema test of a retry's payload are arguments; the theorem on
-- snapshots says at what values of theirs it holds.
-- Whether a type of effect is deterministic, which the modules say, is an argument of `plan_fork`, and so
-- are the id and the time of its marker.
-- The size of the JSON text of a map's outputs is an argument of the step of a workflow thread; the payloads
-- of its events are as their schemas decode them.
-- `Cron` of the effect library is an argument of the schedules (Schedule/Specs.CronLibrary); the theorem on
-- the next time after a fire says that its occurrences are strictly after the time asked for. The JSON
-- text of a value, the definitions, the status of a run and the clock are arguments, with no hypothesis;
-- the clock is past the epoch.
-- `Number` of a text that is not a safe integer in decimal is an argument of the parser of effect ids.
-- The ids and the times of the events that a wake creates, and the size of the JSON text of a workflow's input
-- and output, are arguments, with no hypothesis on them.
--
-- Fuel. Decimal printing recurs on the number itself, which its rounds divide by ten.
-- The loop of the topological sort has one round more than there are nodes (Workflow/Graph/Rounds), and
-- the recursion of `isSettled` through fallbacks one step more than there are nodes: where fallbacks go in
-- a circle the code exhausts its stack, and the model returns an error (Workflow/Graph/Returns).
-- The walk of `failureOrigin` has one round more than the index that it starts from, and each round goes to
-- a smaller one (Core/Fork/Origin).
-- The walk of `descendantThreadIds` up the parents of a thread has one round more than there are threads,
-- which is enough where no thread stands below itself (Runtime/Cascade/Below); around a circle the code
-- does not end.
--
-- Not modelled: I/O, HTTP and storage drivers, user interfaces, schema validation, random ids, and
-- the packages outside the parts above.
pub mod Prelude
pub mod Core
pub mod Workflow
pub mod Schedule
pub mod Runtime
