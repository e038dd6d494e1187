-- ===== src/Parallel/Budget/Invariant.antt =====
-- The state of a session between two calls (packages/brewva-runtime/src/parallel/budget.ts).
use pi_roaster.Base.{
  ℕ, ◌≤◌, ◌≡◌, refl, ◌⊎◌, inl, inr, String, true, Option, List, [], ◌∷◌, string_eq, length,
  length-append, All, arith, eq_iff, if_cases, Option-cases,
}
use pi_roaster.Base.Dict
use pi_roaster.Base.Dict.{Dict, All-get, All-set, All-delete}
use pi_roaster.Base.Members
use pi_roaster.Base.Members.{Distinct, snoc-Distinct, delete-Distinct, length-delete-le}
use pi_roaster.Base.Numeric.{JsNumber}
use pi_roaster.Parallel.Budget.{
  ParallelConfig, Waiter, SessionState, Manager, Call, acquires, acquires_async, releases, clears,
  times_out, rejected, at_max_concurrent, new_manager, fresh_session, get_or_create, acquire_slot,
  acquire, AcquireResult, AsyncResult, is_at_max_concurrent, is_waiting, is_armed, find_waiter,
  remove_waiter, acquire_async, drain_waiters, release, clear, time_out, step, run_calls,
}

-- The slots of a session: the active runs are different, are within the limit, and were counted.
pub record IsWithin (c : ParallelConfig) (st : SessionState) : Type 0 where
  pub distinct : Distinct st.active
  pub capped : length st.active ≤ c.max_concurrent
  pub counted : length st.active ≤ st.total_started
  pub total_capped : st.total_started ≤ c.max_total_per_session

-- Nobody waits while a slot is free.
abbrev pub IsBusy : ParallelConfig → SessionState → Type 0
IsBusy c st = (st.waiters ≡ []) ⊎ (c.max_concurrent ≤ length st.active)

pub record IsSound (c : ParallelConfig) (st : SessionState) : Type 0 where
  pub within : IsWithin c st
  pub busy : IsBusy c st

pub acquire_slot-IsWithin :
    (c : ParallelConfig) (st : SessionState) (run : String)
    → IsWithin c st
    → IsWithin c (acquire_slot c st run).0
unfolding acquire_slot
acquire_slot-IsWithin c st run v =
    ground (arith, snoc-Distinct run st.active, length-append st.active (run ∷ []))

pub acquire_slot-IsSound :
    (c : ParallelConfig) (st : SessionState) (run : String)
    → IsSound c st
    → IsSound c (acquire_slot c st run).0
acquire_slot-IsSound c st run v = record {
  within = acquire_slot-IsWithin c st run v.within;
  busy = unfold acquire_slot in ground (arith, v.busy, length-append st.active (run ∷ []));
}

-- A request that is refused for want of a slot finds all slots taken, and changes nothing.
pub refused_full :
    (c : ParallelConfig) (st : SessionState) (run : String)
    → (acquire_slot c st run).1 ≡ rejected at_max_concurrent
    → (c.max_concurrent ≤ length st.active) × ((acquire_slot c st run).0 ≡ st)
unfolding acquire_slot
refused_full c st run e = ground arith

pub drain_waiters-IsSound :
    (c : ParallelConfig) (ws : List Waiter) (st : SessionState)
    → IsWithin c st
    → IsSound c (drain_waiters c ws st).0
unfolding drain_waiters
drain_waiters-IsSound c [] st v = record { within = ground arith; busy = inl refl }
drain_waiters-IsSound c (next ∷ rest) st v = ground (
  arith,
  refused_full c st next.run_id,
  drain_waiters-IsSound c rest (acquire_slot c st next.run_id).0
      (acquire_slot-IsWithin c st next.run_id v),
)

delete-IsWithin :
    (c : ParallelConfig) (st : SessionState) (run : String)
    → IsWithin c st
    → IsWithin c (record st { active = Members.delete run st.active })
delete-IsWithin c st run v =
    ground (arith, delete-Distinct run st.active, length-delete-le run st.active)

-- Every session of the manager is sound.
abbrev pub AllSound : ParallelConfig → Dict SessionState → Type 0
AllSound c sessions = All (IsSound c) (Dict.values sessions)

fresh-IsSound : (c : ParallelConfig) → IsSound c fresh_session
fresh-IsSound c = record { within = ground arith; busy = inl refl }

get_or_create-IsSound :
    (c : ParallelConfig) (sid : String) (sessions : Dict SessionState)
    → AllSound c sessions
    → IsSound c (get_or_create sid sessions)
unfolding get_or_create
get_or_create-IsSound c sid sessions h = elim (Option-cases (Dict.get sid sessions)) [
  | inl e ↦ rw e (fresh-IsSound c)
  | inr (st, e) ↦ rw e (All-get (IsSound c) sid sessions st h e)
]

acquire-AllSound :
    (m : Manager) (sid run : String)
    → AllSound m.config m.sessions
    → AllSound m.config (acquire m sid run).0.sessions
unfolding acquire
acquire-AllSound m sid run h =
    if_cases {A = Manager × AcquireResult} (λ r. AllSound m.config r.0.sessions) m.config.enabled
      (λ _.
        All-set (IsSound m.config) sid m.sessions _ h
          (acquire_slot-IsSound m.config _ run (get_or_create-IsSound m.config sid m.sessions h)))
      (λ _. h)

config-acquire : (m : Manager) (sid run : String) → (acquire m sid run).0.config ≡ m.config
unfolding acquire
config-acquire m sid run = ground arith

-- A request that is told to wait finds all slots of its session taken.
acquire_full :
    (m : Manager) (sid run : String)
    → (acquire m sid run).1 ≡ rejected at_max_concurrent
    → m.config.max_concurrent ≤ length (get_or_create sid (acquire m sid run).0.sessions).active
unfolding acquire get_or_create
acquire_full m sid run e = ground (
  arith,
  refused_full m.config (get_or_create sid m.sessions) run,
  Dict.get-set sid sid (acquire_slot m.config (get_or_create sid m.sessions) run).0 m.sessions,
  eq_iff sid sid,
)

push-IsSound :
    (c : ParallelConfig) (st : SessionState) (ws : List Waiter)
    → IsWithin c st
    → c.max_concurrent ≤ length st.active
    → IsSound c (record st { waiters = ws })
push-IsSound c st ws v h = record { within = ground arith; busy = inr h }

is_at_max_concurrent_lem :
    (r : AcquireResult) → is_at_max_concurrent r ≡ true → r ≡ rejected at_max_concurrent
is_at_max_concurrent_lem r e = ground arith

acquire_async-AllSound :
    (m : Manager) (sid run : String) (timeout_ms : Option JsNumber)
    → AllSound m.config m.sessions
    → AllSound m.config (acquire_async m sid run timeout_ms).0.sessions
unfolding acquire_async
acquire_async-AllSound m sid run timeout_ms h =
    if_cases P (is_at_max_concurrent (acquire m sid run).1)
      (λ full.
        if_cases P (is_waiting run (get_or_create sid (acquire m sid run).0.sessions).waiters)
          (λ _. sound)
          (λ _. All-set (IsSound m.config) sid (acquire m sid run).0.sessions _ sound (
            push-IsSound m.config _ _
              (get_or_create-IsSound m.config sid (acquire m sid run).0.sessions sound).within
              (acquire_full m sid run (is_at_max_concurrent_lem _ full)))))
      (λ _. sound)
  where
    P : Manager × AsyncResult → Type 0
    P r = AllSound m.config r.0.sessions

    sound : AllSound m.config (acquire m sid run).0.sessions
    sound = acquire-AllSound m sid run h

release-AllSound :
    (m : Manager) (sid run : String)
    → AllSound m.config m.sessions
    → AllSound m.config (release m sid run).0.sessions
unfolding release
release-AllSound m sid run h = elim (Option-cases (Dict.get sid m.sessions)) [
  | inl e ↦ rw (e, release) h
  | inr (st, e) ↦
      rw (e, release)
        (All-set (IsSound m.config) sid m.sessions _ h (
          drain_waiters-IsSound m.config st.waiters _ (
            delete-IsWithin m.config st run
              (All-get (IsSound m.config) sid m.sessions st h e).within)))
]

remove_waiter-nil : (t : ℕ) (ws : List Waiter) → ws ≡ [] → remove_waiter t ws ≡ []
unfolding remove_waiter
remove_waiter-nil t [] e = refl
remove_waiter-nil t (w ∷ ws) e = cc

remove_waiter-IsSound :
    (c : ParallelConfig) (st : SessionState) (t : ℕ)
    → IsSound c st
    → IsSound c (record st { waiters = remove_waiter t st.waiters })
remove_waiter-IsSound c st t v = record {
  within = ground (arith, v.within);
  busy = ground (arith, v.busy, remove_waiter-nil t st.waiters);
}

time_out-AllSound :
    (m : Manager) (sid : String) (ticket : ℕ)
    → AllSound m.config m.sessions
    → AllSound m.config (time_out m sid ticket).0.sessions
unfolding time_out
time_out-AllSound m sid ticket h = elim (Option-cases (Dict.get sid m.sessions)) [
  | inl e ↦ rw (e, time_out) h
  | inr (st, e) ↦
      rw (e, time_out)
        (if_cases {A = Manager × List (ℕ × AcquireResult)} (λ r. AllSound m.config r.0.sessions)
          (is_armed (find_waiter ticket st.waiters))
          (λ _. All-set (IsSound m.config) sid m.sessions _ h (
            remove_waiter-IsSound m.config st ticket
              (All-get (IsSound m.config) sid m.sessions st h e)))
          (λ _. h))
]

config-step : (m : Manager) (call : Call) → (step m call).config ≡ m.config
unfolding step acquire_async release time_out clear
config-step m (acquires sid run) = config-acquire m sid run
config-step m (acquires_async sid run timeout_ms) = ground (arith, config-acquire m sid run)
config-step m (releases sid run) = ground arith
config-step m (clears sid) = refl
config-step m (times_out sid ticket) = ground arith

-- Each call keeps every session sound: active runs are distinct and within both limits, and nobody
-- waits in a session that has a free slot.
pub step-AllSound :
    (m : Manager) (call : Call)
    → AllSound m.config m.sessions
    → AllSound (step m call).config (step m call).sessions
step-AllSound m call h = rw config-step (sound call)
  where
    sound : (call : Call) → AllSound m.config (step m call).sessions
    sound (acquires sid run) = unfold step in acquire-AllSound m sid run h
    sound (acquires_async sid run timeout_ms) =
        unfold step in acquire_async-AllSound m sid run timeout_ms h
    sound (releases sid run) = unfold step in release-AllSound m sid run h
    sound (clears sid) = unfold step clear in All-delete (IsSound m.config) sid m.sessions h
    sound (times_out sid ticket) = unfold step in time_out-AllSound m sid ticket h

run_calls-AllSound :
    (m : Manager) (cs : List Call)
    → AllSound m.config m.sessions
    → AllSound (run_calls m cs).config (run_calls m cs).sessions
unfolding run_calls
run_calls-AllSound m [] h = h
run_calls-AllSound m (c ∷ cs) h = run_calls-AllSound (step m c) cs (step-AllSound m c h)

-- After any calls on a new manager, every session has pairwise different active runs, at most
-- `maxConcurrent` of them, has started at most `maxTotalPerSession` runs, and has a waiter only
-- while `maxConcurrent` runs are active.
pub reachable-AllSound :
    (c : ParallelConfig) (cs : List Call)
    → AllSound (run_calls (new_manager c) cs).config (run_calls (new_manager c) cs).sessions
unfolding new_manager Dict.values
reachable-AllSound c cs = run_calls-AllSound (new_manager c) cs tt
