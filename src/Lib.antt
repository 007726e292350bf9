-- ===== src/Lib.antt =====
-- The AI Desktop permission, task, scheduling and sync core.
--
-- AI Desktop is an assistant whose agents run tools on the user's machine. Before a tool runs it passes
-- the permission manager; long tasks run in the background under a manager that rations slots; the steps
-- of a task form a graph of dependencies; a scheduler starts tasks at their due times; settings and metadata are synced between devices
-- through a bounded outbox and a sync engine that pushes, pulls and merges. Every entity is named by a ULID.
--
-- Files and code, with paths from the repository's root:
--   Base, Base/*              JavaScript texts (UTF-16 code units), maps in insertion order, lists, tests.
--   Ids, Ids/*                packages/shared/src/ids.ts: generateUlid, isUlid, getUlidTimestamp, parseTaskId
--                             and its siblings.
--   Permissions/Policy, /*    packages/permissions/src/core/permission-policy.ts and policy-evaluator.ts.
--   Permissions/Repository    packages/storage/src/permissions/permission-repository.ts, as an interface.
--   Permissions/Manager, /*   packages/permissions/src/core/default-permission-manager.ts: check.
--   Permissions/Resolution, /*  the same file: resolve and revoke.
--   Sync/Conflict, /*         packages/ai-core/src/sync.ts: envelope, scalar conflicts, classification.
--   Sync/Queue, /*            packages/agent-runtime/src/runtime/sync/sync-queue.ts.
--   Sync/Payload, /*          JSON values and the guards on them, of sync.ts and of sync-engine.ts.
--   Sync/Transport, /*        packages/agent-runtime/src/runtime/sync/sync-transport.ts: the wire record, its
--                             check, the port.
--   Sync/Engine, /*           sync-engine.ts beside it: SyncRecordSchema, canonicalToWire, the two gates.
--   Sync/Merge, /*            the same file: the engine's state, _trackTombstone, _mergeRemote; and
--                             buildSyncConflict of sync.ts.
--   Sync/Tick, /*             the same file: _tickOnce, _withRetry, _setStatus.
--   Secrets                   packages/ai-core/src/background-tasks.ts: assertNoSecrets.
--   Background/Task, /*       the same file: statuses, transitions, bounds, schemas, recovery classes.
--   Background/*              packages/agent-runtime/src/runtime/background-task-manager.ts: Manager holds
--                             the state, the slots and _schedule; Lookup holds _lookup, get and list;
--                             Operations, Start, Settlement and Recovery hold the calls; History (with recoveries as steps) and
--                             Isolation hold whole runs of the manager.
--   Schemas                   packages/shared/src/ipc-contract.ts: the string schemas of the records.
--   Scheduling/Contract       packages/ai-core/src/schedules.ts.
--   Scheduling/Calendar       JavaScript's UTC dates.
--   Scheduling/Calculator, /*   packages/agent-runtime/src/runtime/scheduling/schedule-calculator.ts.
--   Scheduling/Store          background-scheduler.ts beside it: the store port and the in-memory store.
--   Scheduling/Scheduler, /*  the same file: Scheduler holds the state and the private helpers, Tick the
--                             tick with its Plan and Launch, Calls runNow, settleRun and setEnabled,
--                             Recovery recover; the others are proofs.
--   TaskGraph, TaskGraph/*    packages/agent-runtime/src/runtime/task-graph.ts: validateTaskGraph, and in
--                             Operations the class TaskGraph.
--
-- A class is a record of its fields, a method a function from the record to the record and the result;
-- an error is a value. Clocks, fresh ids and random bytes are arguments. The database of the permission
-- manager and the runtime of the background manager are parameters: an interface of operations, and a
-- function that says whether a run is refused at its start. Events and persisted records are listed in the
-- order in which they go out, with the prose of their messages left out; the background manager's sinks are
-- taken to be present. Loops are structural, but for the topological sort: it has as many rounds as there
-- are nodes, which is enough since a round places a node and none is placed twice; and for the searches
-- of the schedule calculator, whose bounds are the source's own: 2161 minutes for a wall time that a zone
-- skips, 371 days for a daily and 8 for a weekly time, 4000 due times. The zone database, Date.parse,
-- toISOString, the JSON functions, the launcher, the scheduler's store, the sync store and the sync transport
-- are parameters. Instants of the scheduler count from 0000-03-01. A sync tick reads the clock once, its retries are three at most, and the payload of a
-- record is its JSON text.
--
-- Not modelled: what other calls may do while a call of the background manager awaits its event sink (each
-- call runs to its end), the JSON text of the outbox, the database client, the model providers, the
-- protocol clients, the desktop shell, the agent loop, the timer of the sync engine
-- and ticks that overlap, the loopback transport, account sessions,
-- projections of events, plugins and skills.
pub mod Base
pub mod Ids
pub mod Schemas
pub mod Permissions
pub mod Sync
pub mod Secrets
pub mod Background
pub mod TaskGraph
pub mod Scheduling
