-- ===== src/Parallel/Service/Events.antt =====
-- What packages/brewva-runtime/src/services/parallel.ts records of its answers.
use pi_roaster.Base.{
  ℕ, suc, ◌+◌, ◌≡◌, ap, ◌∙◌, subst, String, Bool, true, false, not, ◌&&◌, Option, none, some, List,
  [], ◌∷◌, ◌++◌, leb, ltb, ◌==◌, string_eq, if◌then◌else◌, if_cases, eq_iff, arith,
}
use pi_roaster.Base.Numeric.{JsNumber}
use pi_roaster.Lease.Amounts.{SkillDocument}
use pi_roaster.Parallel.Budget.{
  AcquireResult, accepted, rejected, AsyncResult, settled, waiting, is_at_max_concurrent,
  active_run_count,
}
use pi_roaster.Parallel.Security.{EnforcementMode, mode_off, mode_warn, mode_enforce}
use pi_roaster.Parallel.Service.{
  Service, Reading, SlotEvent, skill_parallel_warning, skill_limit_rejected, slot_rejected,
  read_limit, try_within, take_slot, at_limit, is_off, warn_once, record_rejection,
  record_if_rejected, finish_async, settle_waiter, try_acquire_parallel_slot, acquire_parallel_slot,
  acquire_parallel_slot_async,
}

-- The rejections of a run among the events.
unfoldable pub rejections : String → List SlotEvent → ℕ
rejections run [] = 0
rejections run (slot_rejected t q name reason ∷ es) =
    let rest = rejections run es in if q == run then suc rest else rest
rejections run (skill_limit_rejected t q name a l ∷ es) =
    let rest = rejections run es in if q == run then suc rest else rest
rejections run (skill_parallel_warning t name a l ∷ es) = rejections run es

rejections-append :
    (run : String) (es fs : List SlotEvent)
    → rejections run (es ++ fs) ≡ rejections run es + rejections run fs
unfolding rejections
rejections-append run [] fs = omega arith
rejections-append run (slot_rejected t q name reason ∷ es) fs =
    ground (arith, rejections-append run es fs)
rejections-append run (skill_limit_rejected t q name a l ∷ es) fs =
    ground (arith, rejections-append run es fs)
rejections-append run (skill_parallel_warning t name a l ∷ es) fs = rejections-append run es fs

abbrev pub refusals : AcquireResult → ℕ
refusals accepted = 0
refusals (rejected reason) = 1

rejections-record_if_rejected :
    (run : String) (r : Reading) (result : AcquireResult) (s : Service)
    → rejections run (record_if_rejected run r result s).events
      ≡ rejections run s.events + refusals result
unfolding record_if_rejected record_rejection
rejections-record_if_rejected run r accepted s = omega arith
rejections-record_if_rejected run r (rejected reason) s =
    rejections-append run s.events _ ∙ unfold rejections in ground (arith, eq_iff run run)

rejections-take_slot :
    (sid run : String) (recording : Bool) (r : Reading) (s : Service)
    → rejections run (take_slot sid run recording r s).0.events
      ≡ rejections run s.events
        + (if recording then refusals (take_slot sid run recording r s).1 else 0)
unfolding take_slot
rejections-take_slot sid run true r s = rejections-record_if_rejected run r _ _
rejections-take_slot sid run false r s = omega arith

rejections-warn_once :
    (run k name : String) (a l : ℕ) (r : Reading) (s : Service)
    → rejections run (warn_once k name a l r s).events ≡ rejections run s.events
unfolding warn_once rejections
rejections-warn_once run k name a l r s =
    ground (arith, rejections-append run s.events (skill_parallel_warning r.turn name a l ∷ []))

rejections-at_limit :
    (sid run : String) (recording : Bool) (name : String) (a l : ℕ) (r : Reading)
    (mode : EnforcementMode) (s : Service)
    → rejections run (at_limit sid run recording name a l r mode s).0.events
      ≡ rejections run s.events
        + (if recording then refusals (at_limit sid run recording name a l r mode s).1 else 0)
unfolding at_limit
rejections-at_limit sid run recording name a l r mode_off s =
    rejections-take_slot sid run recording r s
rejections-at_limit sid run recording name a l r mode_warn s = omega (
  arith,
  rejections-take_slot sid run recording r (warn_once run name a l r s),
  rejections-warn_once run run name a l r s,
)
rejections-at_limit sid run true name a l r mode_enforce s =
    rejections-append run s.events _ ∙ unfold rejections in ground (arith, eq_iff run run)
rejections-at_limit sid run false name a l r mode_enforce s = omega arith

rejections-try_within :
    (sid run : String) (recording : Bool) (skill : Option SkillDocument) (limit : Option ℕ)
    (r : Reading) (s : Service)
    → rejections run (try_within sid run recording skill limit r s).0.events
      ≡ rejections run s.events
        + (if recording then refusals (try_within sid run recording skill limit r s).1 else 0)
unfolding try_within
rejections-try_within sid run recording (some skill) (some n) r s =
    if_cases
      (λ (q : Service × AcquireResult).
        rejections run q.0.events
        ≡ rejections run s.events + (if recording then refusals q.1 else 0))
      (ltb 0 n
        && not (is_off s.policy.skill_max_parallel_mode)
        && leb n (active_run_count s.slots sid))
      (λ _. rejections-at_limit sid run recording skill.name _ n r _ s)
      (λ _. rejections-take_slot sid run recording r s)
rejections-try_within sid run recording (some skill) none r s =
    rejections-take_slot sid run recording r s
rejections-try_within sid run recording none limit r s = rejections-take_slot sid run recording r s

events-read_limit : (r : Reading) (s : Service) → (read_limit r s).0.events ≡ s.events
unfolding read_limit
events-read_limit r s = ground arith

rejections-try :
    (sid run : String) (recording : Bool) (r : Reading) (s : Service)
    → rejections run (try_acquire_parallel_slot sid run recording r s).0.events
      ≡ rejections run s.events
        + (if recording then refusals (try_acquire_parallel_slot sid run recording r s).1 else 0)
unfolding try_acquire_parallel_slot
rejections-try sid run recording r s = omega (
  arith,
  rejections-try_within sid run recording r.active_skill (read_limit r s).1 r (read_limit r s).0,
  ap (rejections run) (events-read_limit r s),
)

-- The rejections of an asynchronous answer: none as long as the call waits.
abbrev pub refusals_now : AsyncResult → ℕ
refusals_now (settled result) = refusals result
refusals_now (waiting ticket) = 0

rejections-finish_async :
    (run : String) (r : Reading) (result : AsyncResult) (s : Service)
    → rejections run (finish_async run r result s).events
      ≡ rejections run s.events + refusals_now result
unfolding finish_async
rejections-finish_async run r (settled result) s = rejections-record_if_rejected run r result s
rejections-finish_async run r (waiting ticket) s = omega arith

-- Every rejection of a run is recorded once: a call for a slot records one rejection when it
-- answers with one, and none when it accepts; an asynchronous call one when it is rejected at once,
-- and none when it is accepted at once or waits; the settling of a waiting promise one if the answer
-- is a rejection.
pub rejections_recorded :
    (sid run : String) (timeout_ms : Option JsNumber) (r r' : Reading) (s s' : Service)
    (result : AcquireResult)
    → (rejections run (acquire_parallel_slot sid run r s).0.events
        ≡ rejections run s.events + refusals (acquire_parallel_slot sid run r s).1)
      × (rejections run (acquire_parallel_slot_async sid run timeout_ms r s).0.events
          ≡ rejections run s.events
            + refusals_now (acquire_parallel_slot_async sid run timeout_ms r s).1)
      × (rejections run (settle_waiter run r' result s').events
          ≡ rejections run s'.events + refusals result)
unfolding acquire_parallel_slot acquire_parallel_slot_async settle_waiter
rejections_recorded sid run timeout_ms r r' s s' result = (
  rejections-try sid run true r s,
  subst
      (λ n.
        rejections run (acquire_parallel_slot_async sid run timeout_ms r s).0.events
        ≡ n + refusals_now (acquire_parallel_slot_async sid run timeout_ms r s).1)
      first
      (if_cases
        (λ (q : Service × AsyncResult).
          rejections run q.0.events
          ≡ rejections run (try_acquire_parallel_slot sid run false r s).0.events
            + refusals_now q.1)
        (is_at_max_concurrent (try_acquire_parallel_slot sid run false r s).1)
        (λ _. rejections-finish_async run r _ _) (λ _. rejections-record_if_rejected run r _ _)),
  rejections-record_if_rejected run r' result s',
)
  where
    first :
        rejections run (try_acquire_parallel_slot sid run false r s).0.events
        ≡ rejections run s.events
    first = omega (arith, rejections-try sid run false r s)
