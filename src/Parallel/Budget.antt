-- ===== src/Parallel/Budget.antt =====
-- packages/brewva-runtime/src/parallel/budget.ts: `ParallelBudgetManager`. A call returns the new
-- manager and the promises that it settles, oldest waiter first. A waiter object is known by its
-- ticket; a waiting promise is settled later, by `release`, by its timer or by `clear`.
pub mod Invariant
pub mod Waiting
use pi_roaster.Base.{
  ℕ, suc, ◌+◌, ◌≡◌, refl, String, Bool, true, false, ◌&&◌, Option, none, some, List, [], ◌∷◌, ◌++◌,
  map, leb, ◌==◌, nat_eq, string_eq, if◌then◌else◌, length, or_else, is_some, arith,
}
use pi_roaster.Base.Dict
use pi_roaster.Base.Dict.{Dict}
use pi_roaster.Base.Members
use pi_roaster.Base.Numeric.{JsNumber, trunc_at_least}

-- `BrewvaConfig["parallel"]`.
pub record ParallelConfig : Type 0 where
  pub enabled : Bool
  pub max_concurrent : ℕ
  pub max_total_per_session : ℕ

pub data Reason : Type 0 where
  disabled at_max_concurrent at_max_total skill_max_parallel timeout cancelled : Reason

pub data AcquireResult : Type 0 where
  accepted : AcquireResult
  rejected : Reason → AcquireResult

-- A waiter object; `timer` is the delay of its pending `setTimeout`, if it has one.
pub record Waiter : Type 0 where
  pub ticket : ℕ
  pub run_id : String
  pub timer : Option ℕ

pub record SessionState : Type 0 where
  pub active : List String
  pub total_started : ℕ
  pub waiters : List Waiter

pub record Manager : Type 0 where
  pub config : ParallelConfig
  pub sessions : Dict SessionState
  pub next_ticket : ℕ

-- `new ParallelBudgetManager(config)`.
unfoldable pub new_manager : ParallelConfig → Manager
new_manager c = record { config = c; sessions = []; next_ticket = 0 }

abbrev pub fresh_session : SessionState
fresh_session = record { active = []; total_started = 0; waiters = [] }

unfoldable pub get_or_create : String → Dict SessionState → SessionState
get_or_create sid sessions = or_else (Dict.get sid sessions) fresh_session

-- `acquire` on the state of a session that is there.
unfoldable pub acquire_slot : ParallelConfig → SessionState → String → SessionState × AcquireResult
acquire_slot c st run =
    if c.enabled
    then (if Members.has run st.active
        then (st, accepted)
        else if leb c.max_concurrent (length st.active)
        then (st, rejected at_max_concurrent)
        else if leb c.max_total_per_session st.total_started
        then (st, rejected at_max_total)
        else (
          record st { active = st.active ++ run ∷ []; total_started = st.total_started + 1 },
          accepted,
        ))
    else (st, rejected disabled)

unfoldable pub acquire : Manager → String → String → Manager × AcquireResult
acquire m sid run =
    if m.config.enabled
    then (let (st, result) = acquire_slot m.config (get_or_create sid m.sessions) run in
        (record m { sessions = Dict.set sid st m.sessions }, result))
    else (m, rejected disabled)

abbrev pub is_at_max_concurrent : AcquireResult → Bool
is_at_max_concurrent (rejected at_max_concurrent) = true
is_at_max_concurrent _ = false

unfoldable pub is_waiting : String → List Waiter → Bool
is_waiting run [] = false
is_waiting run (w ∷ ws) = if w.run_id == run then true else is_waiting run ws

pub data AsyncResult : Type 0 where
  settled : AcquireResult → AsyncResult
  waiting : ℕ → AsyncResult

-- The delay of the timer: absent or not finite means no timer.
unfoldable pub timer_delay : Option JsNumber → Option ℕ
unfolding trunc_at_least
timer_delay none = none
timer_delay (some x) = trunc_at_least 1 x

unfoldable pub acquire_async : Manager → String → String → Option JsNumber → Manager × AsyncResult
acquire_async m sid run timeout_ms =
    let (m', immediate) = acquire m sid run in
    if is_at_max_concurrent immediate
    then (let st = get_or_create sid m'.sessions in
        if is_waiting run st.waiters then (m', settled (rejected at_max_concurrent)) else (
          record m' {
            sessions =
                Dict.set sid
                  (record st {
                    waiters =
                        st.waiters
                        ++ (record {
                          ticket = m'.next_ticket;
                          run_id = run;
                          timer = timer_delay timeout_ms;
                        })
                          ∷ [];
                  })
                  m'.sessions;
            next_ticket = suc m'.next_ticket;
          },
          waiting m'.next_ticket,
        ))
    else (m', settled immediate)

-- The loop of `drainWaiters` over the waiters: the waiters that it settles, and the state that it
-- leaves. A waiter that finds all slots taken stays at the head of the queue.
unfoldable pub drain_waiters :
    ParallelConfig → List Waiter → SessionState → SessionState × List (Waiter × AcquireResult)
drain_waiters c [] st = (record st { waiters = [] }, [])
drain_waiters c (next ∷ rest) st =
    let later = drain_waiters c rest (acquire_slot c st next.run_id).0 in
    if is_at_max_concurrent (acquire_slot c st next.run_id).1
    then (record st { waiters = next ∷ rest }, [])
    else (later.0, (next, (acquire_slot c st next.run_id).1) ∷ later.1)

unfoldable pub release : Manager → String → String → Manager × List (Waiter × AcquireResult)
release m sid run = elim (Dict.get sid m.sessions) [
  | none ↦ (m, [])
  | some st ↦
      let (st', done) =
        drain_waiters m.config st.waiters (record st { active = Members.delete run st.active }) in
      (record m { sessions = Dict.set sid st' m.sessions }, done)
]

unfoldable pub active_run_count : Manager → String → ℕ
active_run_count m sid = elim (Dict.get sid m.sessions) [ none ↦ 0 | some st ↦ length st.active ]

unfoldable pub cancel_all : List Waiter → List (Waiter × AcquireResult)
cancel_all [] = []
cancel_all (w ∷ ws) = (w, rejected cancelled) ∷ cancel_all ws

unfoldable pub clear : Manager → String → Manager × List (Waiter × AcquireResult)
unfolding cancel_all
clear m sid = (
  record m { sessions = Dict.delete sid m.sessions },
  elim (Dict.get sid m.sessions) [ none ↦ [] | some st ↦ cancel_all st.waiters ],
)

unfoldable pub find_waiter : ℕ → List Waiter → Option Waiter
find_waiter t [] = none
find_waiter t (w ∷ ws) = if w.ticket == t then some w else find_waiter t ws

unfoldable pub remove_waiter : ℕ → List Waiter → List Waiter
remove_waiter t [] = []
remove_waiter t (w ∷ ws) = if w.ticket == t then ws else w ∷ remove_waiter t ws

abbrev pub is_armed : Option Waiter → Bool
is_armed none = false
is_armed (some w) = is_some w.timer

-- The callback of a waiter's timer. A timer that was cleared, or was never set, does not fire.
unfoldable pub time_out : Manager → String → ℕ → Manager × List (ℕ × AcquireResult)
time_out m sid ticket = elim (Dict.get sid m.sessions) [
  | none ↦ (m, [])
  | some st ↦
      if is_armed (find_waiter ticket st.waiters)
      then (
        record m {
          sessions =
              Dict.set sid (record st { waiters = remove_waiter ticket st.waiters }) m.sessions;
        },
        (ticket, rejected timeout) ∷ [],
      )
      else (m, [])
]

pub data Call : Type 0 where
  acquires : String → String → Call
  acquires_async : String → String → Option JsNumber → Call
  releases : String → String → Call
  clears : String → Call
  times_out : String → ℕ → Call

unfoldable pub step : Manager → Call → Manager
step m (acquires sid run) = (acquire m sid run).0
step m (acquires_async sid run timeout_ms) = (acquire_async m sid run timeout_ms).0
step m (releases sid run) = (release m sid run).0
step m (clears sid) = (clear m sid).0
step m (times_out sid ticket) = (time_out m sid ticket).0

unfoldable pub run_calls : Manager → List Call → Manager
run_calls m [] = m
run_calls m (c ∷ cs) = run_calls (step m c) cs
