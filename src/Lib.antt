-- ===== src/Lib.antt =====
-- Kross is a coding agent: a runtime (packages/core) calls tools through a gateway, a conductor
-- splits a goal into tasks for workers, and a worker process (packages/worker) streams the events
-- of its sessions to clients. This library models the parts of the runtime and the worker that
-- decide what runs, what is recorded and what survives a crash.
--
-- The parts, and the files that model them:
--   * Base: what the modules share. Base.Tests has Boolean tests, Base.Lists lists over the native
--     numbers, Base.Maps the `Map` of JavaScript as a list of entries in insertion order, and
--     Base.Json JSON values.
--   * Gateway: packages/core/src/tools. Gateway.Registry is the registry of `ToolGateway`
--     (`register`, `replaceCategory`, `definitionsByCategory`, `listTools`); Gateway.Call its
--     `call` and `inspectCall`; Gateway.Retry is toolRetry.ts and Gateway.Permission
--     permissionModes.ts. A call asks the approval policy, resolves its retry policy, and runs the
--     attempts; its trace is the list of recorded events. Gateway.Schedule is
--     `executeScheduledToolCalls` of packages/core/src/runtime/toolLoopShared.ts, a client of
--     `inspectCall` and `call`.
--   * Conductor: Conductor.Plan is packages/core/src/modes/conductorPlan.ts; Conductor.Execution
--     `executeConductorWorker` of packages/core/src/runtime/conductorExecution.ts;
--     Conductor.Dispatch the loop over the workers in `conductorExecutePhase` of modeFlows.ts
--     there, a client of the plan, with what each worker comes to as an argument; and
--     Conductor.Verification `aggregateConductorVerification` of conductorOrchestration.ts there.
--   * Mutations: Mutations.Journal is packages/core/src/mutations/mutationJournal.ts, with the
--     recovery at a start from mutationService.ts.
--   * Worker: Worker.EventJournal is packages/worker/src/eventJournal.ts for one session.
--   * Builtin: Builtin.LineStats is packages/core/src/tools/builtin/fileChangeStats.ts.
--   * Session: Session.Todo is packages/core/src/todo/todoStore.ts, Session.ContextPolicy
--     packages/core/src/context/contextPolicy.ts, and Session.Stall
--     packages/core/src/runtime/toolLoopStallDetector.ts.
--   * Context: packages/core/src/context. Context.Tokens is tokenEstimator.ts; Context.Thread,
--     Context.Edits, Context.State and Context.Legacy are `ConversationThread` of
--     conversationThread.ts: turns and appended entries, changes of entries, saved states, and
--     conversations of old sessions. Context.Prefix, Context.Aging,
--     Context.Stages and Context.Governor are contextGovernor.ts: the choice of a prefix, the aging
--     of tool results, the three stages, and `govern`, with the policy of Session.ContextPolicy.
--     Context.Pairing has the proofs on the pairing of calls and results.
--   * Runtime: Runtime.CompleteLoop is packages/core/src/runtime/completeToolLoop.ts, a client of the
--     thread, of `govern`, of the scheduler of Gateway.Schedule and of Session.Stall.
--   * Server: Server.IdleReaper is packages/server/src/idleReaper.ts over the registry of
--     workspaceRegistry.ts there.
--   * Tests: the theorems at concrete inputs.
-- Child modules hold the proofs and are named for what they prove. Names are those of the source,
-- in snake case.
--
-- State and environment: the state of an object is a record, and a method a function on it. What a
-- part meets outside is an argument: what each attempt of a tool, with its recovery hint, or a worker comes to and whether
-- the signal is aborted around it, the regular expressions of dangerous commands,
-- `String.prototype.trim`, and the test of which files require a verification. A file is a list of
-- classified lines and a flag for a last line that a crash has cut off; such a line is no JSON.
--
-- Bounds and fuel: the retry loop of `call` and the attempts of a worker recurse on the rounds left.
-- The search of a plan recurses on a depth of one more than the number of tasks, since every open
-- visit holds another id; the loop over the workers on the number of tasks, since every round but
-- the last takes a worker out; and the scheduler on the number of calls, since every round takes one.
-- The hard truncation walks a list that grows; twice the number of entries is enough, since an
-- entry adds at most one notice. Counts and times are natural numbers.
--
-- Not modelled: the calibration of the token estimate, texts of messages, summaries and prompts, the
-- times and identifiers of trace events, blobs of the mutation journal, listeners, the loading of the
-- request index, and the parts of the program that are input and output, networks, user interfaces
-- or composition.
pub mod Base
pub mod Conductor
pub mod Gateway
pub mod Mutations
pub mod Builtin
pub mod Worker
pub mod Session
pub mod Context
pub mod Runtime
pub mod Server
mod Tests
