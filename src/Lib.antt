-- ===== src/Lib.antt =====
-- The parts of the Brewva runtime that decide what an agent may do and that must survive a restart.
-- The runtime's services keep their state in memory, append what happens to an event tape or to a
-- log, and rebuild the state from it in the next process. A file of this library stands for one
-- file of packages/brewva-runtime/src, below written src/, or of the gateway; the types of the
-- runtime are those of src/types.ts.
--
--   Base            Boolean tests on numbers and texts, lists, and what the code uses of JavaScript:
--                   Base/Dict the insertion-ordered `Map`, Base/Members a `Set` of texts, Base/Text
--                   `trim` and `toLowerCase`, Base/Numeric a number with `nan` and the infinities,
--                   Base/Sorting the stable `toSorted`, Base/Coerce what readers of payloads share.
--   Parallel        Parallel/Budget is src/parallel/budget.ts, `ParallelBudgetManager`: the slots of
--                   parallel runs and the queue of those that wait. `acquire_slot` is `acquire` on a
--                   session's state, `drain_waiters` is `drainWaiters`, `time_out` the callback of a
--                   waiter's timer. A promise is known by the ticket of its waiter.
--                   Parallel/Results is src/parallel/results.ts: the results of a session's workers
--                   and their merge, with `group_by_path` and `conflicts_in` the two loops of
--                   `detectConflicts`. Parallel/Security is src/security/mode.ts. Parallel/Service is
--                   src/services/parallel.ts, `ParallelService`, which asks Lease for the limit of the
--                   active skill and then Parallel/Budget for a slot; Parallel/Service/Limits is
--                   about that limit, Parallel/Service/Events and Warnings about what is recorded.
--   Lease           src/services/resource-lease.ts, `ResourceLeaseService`: budgets that a skill gets
--                   on top of its default. Lease/Amounts is its arithmetic, with the two budgets that
--                   src/skills/facets.ts reads of a contract.
--   Desk            src/services/effect-commitment-desk.ts, `EffectCommitmentDeskService`: approvals of
--                   effects by an operator. Desk/Records is its data, Desk/Hydration how it is rebuilt
--                   from the tape, Desk/View what the tape keeps of it, Desk/Tape how an event
--                   changes what is rebuilt. `normalizeToolName` is src/utils/tool-name.ts.
--   Wal             src/channels/turn-wal.ts, `TurnWALStore`: the log of the turns that are to be
--                   handled. Wal/Rows is a row and the reader of its line, Wal/Durable what keeps the
--                   file and the process in step, Wal/Terminal the statuses that end a turn.
--   TurnRecovery    src/channels/turn-wal-recovery.ts, `TurnWALRecovery`, on the stores of Wal:
--                   `recover_row` is the body of the inner loop of `recover`. The handlers are
--                   parameters: what one does is a list of calls on its store and whether it throws.
--   Truth           src/truth/ledger.ts: the facts of a session as a fold of its events, with the reader
--                   of a payload. Truth/Service is src/services/truth.ts. Truth/PerFact compares the
--                   fold with a history of one fact.
--   Task            src/task/ledger.ts: the state of a session's task as a fold of its events.
--                   Task/Reading has the readers of a payload, Task/Normal the texts that they leave,
--                   Task/Checkpoint the checkpoint of a state. Task/Status is `computeTaskStatus` and
--                   `maybeAlignTaskStatus` of src/services/task.ts, on the facts of Truth, and
--                   Task/Service the mutations of that file, but `setTaskSpec`.
--   Cost            src/cost/fold.ts: the costs of a session by model, skill and tool, with the alerts.
--                   Cost/Updates has the recording of tool calls and usages and the payloads of
--                   events, Cost/Summary the summary and what is restored of it, Cost/Tracker is
--                   src/cost/tracker.ts, `SessionCostTracker`, Cost/Service the method
--                   `recordAssistantUsage` of src/services/cost.ts.
--   Tape            src/tape/replay-engine.ts: the evidence and the projection of a session. Tape/View is
--                   `applyEventToView` and `buildView`, on the reducers of Task, Truth and Cost,
--                   Tape/Reader is what src/tape/events.ts reads of a checkpoint, and
--                   Tape/Engine is `TurnReplayEngine` with the tapes of the event store.
--   Rollback        src/services/reversible-mutation.ts, `ReversibleMutationService`. Rollback/Service is
--                   `rollbackLast` of src/services/mutation-rollback.ts, which records a checkpoint
--                   of Task.
--   Gateway         Gateway/Admission is packages/brewva-gateway/src/daemon/session-supervisor/
--                   admission.ts, `SessionOpenAdmissionController`, with the parts of openSession,
--                   stopSession and onWorkerExited of session-supervisor.ts that use it. `acquire_turn`
--                   is one turn of the loop of `acquire`.
--
-- Each part has one function for each public method, on an explicit state: the manager, the cell of
-- a session, the service with its tape, the store with its file. A function takes the readings of
-- the clock and the generated ids as arguments and returns the new state with the result. `Call` is
-- the type of all calls, `step` makes one, `run_calls` a list of them in the order in which the
-- event loop makes them; `clears` and `restarts` lose what is only in memory. The methods do not
-- await anything between reading and writing their state, so a call is one step; `openSession` of the
-- gateway does, and has a step for each part between two awaits.
--
-- Every function terminates by structural recursion: there is no bound; only `roll_back_all`, which
-- repeats a rollback, has fuel, and one more than the recorded mutations is enough. Numbers are
-- natural numbers, since counters, times and budgets are whole and not negative in the source, which
-- rounds what it is given (`Base.Numeric.JsNumber` is the number before it is rounded) and tests
-- `Math.max(0, …)` where it subtracts.
--
-- Not modelled: JSON itself. A payload or a line is what the reader finds in it, with `none` where a
-- field has no value of its type; the file of the log is a list of whole lines, which
-- only the store itself changes. Writes do not fail. Paths and the listing of logs are left out.
-- Policy texts and reasons of a verdict are not kept, only its kind and its request. Sessions of the
-- desk, the leases, the facts and the worker results are independent, so one session's state is
-- modelled there; the manager of slots has all of them. The details of a fact and the id, time and
-- summary of a merged patch set are not looked into. A rejection after an `await` is recorded when
-- the promise settles, which is a step of its own.
-- Of a task's spec only its presence counts. The printing of a number is a parameter of the status.
-- That a worker process cannot be forked is left out. Costs are whole parts of one unit, so the
-- rounding of their sums as doubles is left out; they are taken as not negative. A tool's
-- share of a usage is kept as the expression by which it is computed and rounded. Of a tape's
-- checkpoint the evidence and the projection are read as the source reads them; the readers of its
-- tasks, truth and costs are left out. What the file service answers to a rollback, the governance of a
-- tool and the comparison of two states as JSON are arguments.

pub mod Base
pub mod Parallel
pub mod Lease
pub mod Desk
pub mod Wal
pub mod Truth
pub mod TurnRecovery
pub mod Gateway
pub mod Task
pub mod Cost
pub mod Tape
pub mod Rollback
