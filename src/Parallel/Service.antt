-- ===== src/Parallel/Service.antt =====
-- packages/brewva-runtime/src/services/parallel.ts: `ParallelService` for one session, with the
-- slots, the leases, the results and the recorded events. The active skill, the clock and the turn
-- are read from the other parts of the runtime and are arguments here.
pub mod Limits
mod Tests
pub mod Warnings
pub mod Events
use pi_roaster.Base.{
  ℕ, String, Bool, true, false, Option, none, some, List, [], ◌∷◌, ◌++◌, leb, ltb, ◌&&◌, not,
  if◌then◌else◌,
}
use pi_roaster.Base.Dict
use pi_roaster.Base.Dict.{Dict}
use pi_roaster.Base.Members
use pi_roaster.Base.Text
use pi_roaster.Base.Numeric.{JsNumber}
use pi_roaster.Lease.{Cell, get_effective_budget}
use pi_roaster.Lease.Amounts.{Budget, SkillDocument}
use pi_roaster.Parallel.Budget.{
  Manager, Reason, at_max_concurrent, skill_max_parallel, AcquireResult, accepted, rejected,
  AsyncResult, settled, waiting, acquire, acquire_async, release, active_run_count, Waiter,
  is_at_max_concurrent,
}
use pi_roaster.Parallel.Results.{WorkerResult, Report, record_result, merge}
use pi_roaster.Parallel.Security.{
  EnforcementMode, mode_off, mode_warn, mode_enforce, SecurityPolicy,
}

-- The events: the turn, and the payload.
pub data SlotEvent : Type 0 where
  skill_parallel_warning : ℕ → String → ℕ → ℕ → SlotEvent
  skill_limit_rejected : ℕ → String → String → ℕ → ℕ → SlotEvent
  slot_rejected : ℕ → String → Option String → Reason → SlotEvent

pub record Service : Type 0 where
  pub policy : SecurityPolicy
  pub slots : Manager
  pub leases : Cell
  pub results : Dict WorkerResult
  pub skill_parallel_warnings : List String
  pub events : List SlotEvent

-- What a call reads outside of the service: the active skill, the time and the turn.
pub record Reading : Type 0 where
  pub active_skill : Option SkillDocument
  pub now : ℕ
  pub turn : ℕ

abbrev skill_name : Option SkillDocument → Option String
skill_name none = none
skill_name (some skill) = some skill.name

unfoldable pub max_parallel_of : Option Budget → Option ℕ
max_parallel_of none = none
max_parallel_of (some b) = b.max_parallel

-- `getEffectiveBudget` for the active skill.
unfoldable pub read_limit : Reading → Service → Service × Option ℕ
unfolding max_parallel_of
read_limit r s = elim r.active_skill [
  | none ↦ (s, none)
  | some skill ↦
      let (cell, budget) =
        get_effective_budget skill (some skill.name) r.active_skill r.now r.turn s.leases in
      (record s { leases = cell }, max_parallel_of budget)
]

unfoldable pub record_rejection : String → Reading → Reason → Service → Service
record_rejection run r reason s = record s {
  events = s.events ++ slot_rejected r.turn run (skill_name r.active_skill) reason ∷ [];
}

-- `recordParallelRejection` of a rejected result.
unfoldable pub record_if_rejected : String → Reading → AcquireResult → Service → Service
unfolding record_rejection
record_if_rejected run r accepted s = s
record_if_rejected run r (rejected reason) s = record_rejection run r reason s

unfoldable pub warn_once : String → String → ℕ → ℕ → Reading → Service → Service
warn_once run name active_runs limit r s =
    if Members.has (Text.◌++◌ "maxParallel:" name) s.skill_parallel_warnings then s else record s {
      skill_parallel_warnings = s.skill_parallel_warnings ++ Text.◌++◌ "maxParallel:" name ∷ [];
      events = s.events ++ skill_parallel_warning r.turn name active_runs limit ∷ [];
    }

-- The last part of `tryAcquireParallelSlot`: the slot itself.
unfoldable pub take_slot : String → String → Bool → Reading → Service → Service × AcquireResult
unfolding record_if_rejected
take_slot sid run recording r s =
    let (slots, result) = acquire s.slots sid run in
    let s' = record s { slots = slots } in
    (if recording then record_if_rejected run r result s' else s', result)

-- The skill's limit is reached.
unfoldable pub at_limit :
    String
    → String
    → Bool
    → String
    → ℕ
    → ℕ
    → Reading
    → EnforcementMode
    → Service
    → Service × AcquireResult
unfolding take_slot warn_once
at_limit sid run recording name active_runs limit r mode_off s = take_slot sid run recording r s
at_limit sid run recording name active_runs limit r mode_warn s =
    take_slot sid run recording r (warn_once run name active_runs limit r s)
at_limit sid run recording name active_runs limit r mode_enforce s = (
  if recording
      then record s {
        events = s.events ++ skill_limit_rejected r.turn run name active_runs limit ∷ [];
      }
      else s,
  rejected skill_max_parallel,
)

abbrev pub is_off : EnforcementMode → Bool
is_off mode_off = true
is_off _ = false

-- `tryAcquireParallelSlot` once the limit is known.
unfoldable pub try_within :
    String
    → String
    → Bool
    → Option SkillDocument
    → Option ℕ
    → Reading
    → Service
    → Service × AcquireResult
unfolding at_limit take_slot
try_within sid run recording (some skill) (some limit) r s =
    if ltb 0 limit
      && not (is_off s.policy.skill_max_parallel_mode)
      && leb limit (active_run_count s.slots sid)
    then at_limit sid run recording skill.name (active_run_count s.slots sid) limit r
        s.policy.skill_max_parallel_mode s
    else take_slot sid run recording r s
try_within sid run recording _ _ r s = take_slot sid run recording r s

unfoldable pub try_acquire_parallel_slot :
    String → String → Bool → Reading → Service → Service × AcquireResult
unfolding read_limit try_within
try_acquire_parallel_slot sid run recording r s =
    let (s', limit) = read_limit r s in try_within sid run recording r.active_skill limit r s'

unfoldable pub acquire_parallel_slot : String → String → Reading → Service → Service × AcquireResult
unfolding try_acquire_parallel_slot
acquire_parallel_slot sid run = try_acquire_parallel_slot sid run true

-- The result of `acquireAsync` when the call waits is recorded by `settle_waiter`.
unfoldable pub finish_async : String → Reading → AsyncResult → Service → Service
unfolding record_if_rejected
finish_async run r (settled result) s = record_if_rejected run r result s
finish_async run r (waiting ticket) s = s

unfoldable pub acquire_parallel_slot_async :
    String → String → Option JsNumber → Reading → Service → Service × AsyncResult
unfolding try_acquire_parallel_slot finish_async record_if_rejected
acquire_parallel_slot_async sid run timeout_ms r s =
    let (s', immediate) = try_acquire_parallel_slot sid run false r s in
    if is_at_max_concurrent immediate
    then (let (slots, result) = acquire_async s'.slots sid run timeout_ms in
        (finish_async run r result (record s' { slots = slots }), result))
    else (record_if_rejected run r immediate s', settled immediate)

-- The rest of `acquireParallelSlotAsync` when a waiting promise is settled.
unfoldable pub settle_waiter : String → Reading → AcquireResult → Service → Service
unfolding record_if_rejected
settle_waiter run r result s = record_if_rejected run r result s

unfoldable pub release_parallel_slot :
    String → String → Service → Service × List (Waiter × AcquireResult)
release_parallel_slot sid run s =
    let (slots, done) = release s.slots sid run in (record s { slots = slots }, done)

unfoldable pub record_worker_result :
    String → WorkerResult → Service → Service × List (Waiter × AcquireResult)
record_worker_result sid result s =
    let (slots, done) = release s.slots sid result.worker_id in
    (record s { slots = slots; results = record_result result s.results }, done)

unfoldable pub list_worker_results : Service → List WorkerResult
list_worker_results s = Dict.values s.results

unfoldable pub merge_worker_results : Service → Report
merge_worker_results s = merge s.results

unfoldable pub clear_worker_results : Service → Service
clear_worker_results s = record s { results = [] }

-- The calls on the session of the service, and the settling of its waiting promises.
pub data Call : Type 0 where
  acquires : String → Reading → Call
  acquires_async : String → Option JsNumber → Reading → Call
  settles : String → Reading → AcquireResult → Call
  releases : String → Call
  records : WorkerResult → Call
  clears : Call

unfoldable pub step : String → Service → Call → Service
unfolding acquire_parallel_slot acquire_parallel_slot_async settle_waiter release_parallel_slot
    record_worker_result clear_worker_results
step sid s (acquires run r) = (acquire_parallel_slot sid run r s).0
step sid s (acquires_async run timeout_ms r) =
    (acquire_parallel_slot_async sid run timeout_ms r s).0
step sid s (settles run r result) = settle_waiter run r result s
step sid s (releases run) = (release_parallel_slot sid run s).0
step sid s (records result) = (record_worker_result sid result s).0
step sid s clears = clear_worker_results s

unfoldable pub run_calls : String → Service → List Call → Service
unfolding step
run_calls sid s [] = s
run_calls sid s (c ∷ cs) = run_calls sid (step sid s c) cs
