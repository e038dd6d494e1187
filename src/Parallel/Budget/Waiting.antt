-- ===== src/Parallel/Budget/Waiting.antt =====
-- The queue of waiters (packages/brewva-runtime/src/parallel/budget.ts).
use pi_roaster.Base.{
  ℕ, suc, ◌≤◌, ◌<◌, ◌≡◌, ◌≢◌, refl, ap, sym, ◌∙◌, inl, inr, String, true, false, Option, some, List,
  [], ◌∷◌, ◌++◌, map, ◌==◌, nat_eq, string_eq, All, All-map, arith, eq_iff, if_cases, Bool-cases,
  Option-cases,
}
use pi_roaster.Base.Dict
use pi_roaster.Base.Dict.{Dict, All-get, All-set, All-delete}
use pi_roaster.Base.Members
use pi_roaster.Base.Members.{has-delete, length-delete_member}
use pi_roaster.Base.Numeric.{JsNumber}
use pi_roaster.Parallel.Budget.{
  ParallelConfig, Waiter, SessionState, Manager, Call, acquires, acquires_async, releases, clears,
  times_out, AcquireResult, AsyncResult, accepted, rejected, at_max_concurrent, new_manager,
  get_or_create, acquire_slot, acquire, is_at_max_concurrent, is_waiting, is_armed, find_waiter,
  remove_waiter, acquire_async, drain_waiters, release, clear, time_out, step, run_calls,
}
use pi_roaster.Parallel.Budget.Invariant.{IsWithin}

abbrev pub waiters_of : String → Manager → List Waiter
waiters_of sid m = (get_or_create sid m.sessions).waiters

-- The waiters that a call settled, without their results.
abbrev pub served : List (Waiter × AcquireResult) → List Waiter
served = map (λ d. d.0)

-- No settled promise says that all slots are taken.
abbrev pub IsFinal : Waiter × AcquireResult → Type 0
IsFinal d = d.1 ≢ rejected at_max_concurrent

drain_waiters_partition :
    (c : ParallelConfig) (ws : List Waiter) (st : SessionState)
    → (served (drain_waiters c ws st).1 ++ (drain_waiters c ws st).0.waiters ≡ ws)
      × All IsFinal (drain_waiters c ws st).1
unfolding drain_waiters
drain_waiters_partition c [] st = (refl, tt)
drain_waiters_partition c (next ∷ rest) st =
    let (parts, final) = drain_waiters_partition c rest (acquire_slot c st next.run_id).0 in
    elim (Bool-cases (is_at_max_concurrent (acquire_slot c st next.run_id).1)) [
      | inl full ↦ rw full (refl, tt)
      | inr free ↦ rw free (ap (◌∷◌ next) parts, ((λ e. ground arith), final))
    ]

get_or_create-set_self :
    (sid : String) (st : SessionState) (d : Dict SessionState)
    → get_or_create sid (Dict.set sid st d) ≡ st
unfolding get_or_create
get_or_create-set_self sid st d = ground (arith, Dict.get-set sid sid st d, eq_iff sid sid)

get_or_create_of_get :
    (sid : String) (st : SessionState) (d : Dict SessionState)
    → Dict.get sid d ≡ some st
    → get_or_create sid d ≡ st
unfolding get_or_create
get_or_create_of_get sid st d e = ground arith

-- `release` settles a prefix of the session's queue, oldest first, and leaves the rest waiting in
-- their order; no promise that it settles says that all slots are taken.
pub release_partition :
    (m : Manager) (sid run : String)
    → (served (release m sid run).1 ++ waiters_of sid (release m sid run).0 ≡ waiters_of sid m)
      × All IsFinal (release m sid run).1
unfolding release
release_partition m sid run = elim (Option-cases (Dict.get sid m.sessions)) [
  | inl e ↦ rw (e, release) (refl, tt)
  | inr (st, e) ↦
      let freed : SessionState = record st { active = Members.delete run st.active } in
      let (parts, final) = drain_waiters_partition m.config st.waiters freed in
      rw (e, release)
        (
          ap (λ (q : SessionState). served (drain_waiters m.config st.waiters freed).1 ++ q.waiters)
                (get_or_create-set_self sid (drain_waiters m.config st.waiters freed).0 m.sessions)
              ∙ parts
              ∙ sym
                  (ap (λ (q : SessionState). q.waiters) (get_or_create_of_get sid st m.sessions e)),
          final,
        )
]

-- A queue whose tickets rise from `low`, all below `high`.
abbrev pub Rises : ℕ → ℕ → List Waiter → Type 0
Rises low high [] = low ≤ high
Rises low high (w ∷ ws) = (low ≤ w.ticket) × Rises (suc w.ticket) high ws

Rises-snoc :
    (low high : ℕ) (ws : List Waiter) (w : Waiter)
    → w.ticket ≡ high
    → Rises low high ws
    → Rises low (suc high) (ws ++ w ∷ [])
Rises-snoc low high [] w e h = (omega arith, omega arith)
Rises-snoc low high (v ∷ ws) w e h = (h.0, Rises-snoc (suc v.ticket) high ws w e h.1)

Rises-mono :
    (low low' high high' : ℕ) (ws : List Waiter)
    → low' ≤ low
    → high ≤ high'
    → Rises low high ws
    → Rises low' high' ws
Rises-mono low low' high high' [] l k h = omega arith
Rises-mono low low' high high' (w ∷ ws) l k h =
    (omega arith, Rises-mono (suc w.ticket) (suc w.ticket) high high' ws (omega arith) k h.1)

Rises-remove :
    (low high t : ℕ) (ws : List Waiter) → Rises low high ws → Rises low high (remove_waiter t ws)
unfolding remove_waiter
Rises-remove low high t [] h = h
Rises-remove low high t (w ∷ ws) h =
    if_cases (Rises low high) (w.ticket == t)
      (λ _. Rises-mono (suc w.ticket) low high high ws (omega arith) (omega arith) h.1)
      (λ _. (h.0, Rises-remove (suc w.ticket) high t ws h.1))

Rises-drain :
    (c : ParallelConfig) (low high : ℕ) (ws : List Waiter) (st : SessionState)
    → low ≤ high
    → Rises low high ws
    → Rises low high (drain_waiters c ws st).0.waiters
unfolding drain_waiters
Rises-drain c low high [] st l h = l
Rises-drain c low high (w ∷ ws) st l h =
    if_cases {A = SessionState × List (Waiter × AcquireResult)} (λ r. Rises low high r.0.waiters)
      (is_at_max_concurrent (acquire_slot c st w.run_id).1) (λ _. h)
      (λ _.
        Rises-drain c low high ws (acquire_slot c st w.run_id).0 l
          (Rises-mono (suc w.ticket) low high high ws (omega arith) (omega arith) h.1))

-- The queue of every session is in the order of its tickets, which are all used up.
abbrev pub IsQueued : Manager → Type 0
IsQueued m = All (λ st. Rises 0 m.next_ticket st.waiters) (Dict.values m.sessions)

queued_at :
    (n : ℕ) (sid : String) (d : Dict SessionState)
    → All (λ st. Rises 0 n st.waiters) (Dict.values d)
    → Rises 0 n (get_or_create sid d).waiters
unfolding get_or_create
queued_at n sid d h = elim (Option-cases (Dict.get sid d)) [
  | inl e ↦ rw e (omega arith)
  | inr (st, e) ↦ rw e (All-get (λ (q : SessionState). Rises 0 n q.waiters) sid d st h e)
]

acquire_slot-waiters :
    (c : ParallelConfig) (st : SessionState) (run : String)
    → (acquire_slot c st run).0.waiters ≡ st.waiters
unfolding acquire_slot
acquire_slot-waiters c st run = ground arith

acquire-IsQueued : (m : Manager) (sid run : String) → IsQueued m → IsQueued (acquire m sid run).0
unfolding acquire
acquire-IsQueued m sid run h =
    if_cases {A = Manager × AcquireResult} (λ r. IsQueued r.0) m.config.enabled
      (λ _.
        All-set (λ (q : SessionState). Rises 0 m.next_ticket q.waiters) sid m.sessions _ h
          (rw acquire_slot-waiters (queued_at m.next_ticket sid m.sessions h)))
      (λ _. h)

acquire_async-IsQueued :
    (m : Manager) (sid run : String) (timeout_ms : Option JsNumber)
    → IsQueued m
    → IsQueued (acquire_async m sid run timeout_ms).0
unfolding acquire_async
acquire_async-IsQueued m sid run timeout_ms h =
    if_cases P (is_at_max_concurrent (acquire m sid run).1)
      (λ full.
        if_cases P (is_waiting run (get_or_create sid m'.sessions).waiters) (λ _. queued)
          (λ _.
            All-set (λ (q : SessionState). Rises 0 (suc m'.next_ticket) q.waiters) sid m'.sessions _
              (All-map (λ (q : SessionState). Rises 0 m'.next_ticket q.waiters)
                (λ (q : SessionState). Rises 0 (suc m'.next_ticket) q.waiters)
                (λ q r. Rises-mono 0 0 _ _ q.waiters (omega arith) (omega arith) r)
                (Dict.values m'.sessions) queued)
              (Rises-snoc 0 m'.next_ticket _ _ refl
                (queued_at m'.next_ticket sid m'.sessions queued))))
      (λ _. queued)
  where
    P : Manager × AsyncResult → Type 0
    P r = IsQueued r.0

    m' : Manager
    m' = (acquire m sid run).0

    queued : IsQueued m'
    queued = acquire-IsQueued m sid run h

release-IsQueued : (m : Manager) (sid run : String) → IsQueued m → IsQueued (release m sid run).0
unfolding release
release-IsQueued m sid run h = elim (Option-cases (Dict.get sid m.sessions)) [
  | inl e ↦ rw (e, release) h
  | inr (st, e) ↦
      rw (e, release)
        (All-set (λ (q : SessionState). Rises 0 m.next_ticket q.waiters) sid m.sessions _ h
          (Rises-drain m.config 0 m.next_ticket st.waiters _ (omega arith) (
            All-get (λ (q : SessionState). Rises 0 m.next_ticket q.waiters) sid m.sessions st h e)))
]

time_out-IsQueued :
    (m : Manager) (sid : String) (t : ℕ) → IsQueued m → IsQueued (time_out m sid t).0
unfolding time_out
time_out-IsQueued m sid t h = elim (Option-cases (Dict.get sid m.sessions)) [
  | inl e ↦ rw (e, time_out) h
  | inr (st, e) ↦
      rw (e, time_out)
        (if_cases {A = Manager × List (ℕ × AcquireResult)} (λ r. IsQueued r.0)
          (is_armed (find_waiter t st.waiters))
          (λ _.
            All-set (λ (q : SessionState). Rises 0 m.next_ticket q.waiters) sid m.sessions _ h
              (Rises-remove 0 m.next_ticket t st.waiters (
                All-get (λ (q : SessionState). Rises 0 m.next_ticket q.waiters) sid m.sessions st h
                  e)))
          (λ _. h))
]

step-IsQueued : (m : Manager) (call : Call) → IsQueued m → IsQueued (step m call)
unfolding step clear
step-IsQueued m (acquires sid run) h = acquire-IsQueued m sid run h
step-IsQueued m (acquires_async sid run timeout_ms) h =
    acquire_async-IsQueued m sid run timeout_ms h
step-IsQueued m (releases sid run) h = release-IsQueued m sid run h
step-IsQueued m (clears sid) h =
    All-delete (λ (q : SessionState). Rises 0 m.next_ticket q.waiters) sid m.sessions h
step-IsQueued m (times_out sid t) h = time_out-IsQueued m sid t h

run_calls-IsQueued : (m : Manager) (cs : List Call) → IsQueued m → IsQueued (run_calls m cs)
unfolding run_calls
run_calls-IsQueued m [] h = h
run_calls-IsQueued m (c ∷ cs) h = run_calls-IsQueued (step m c) cs (step-IsQueued m c h)

-- After any calls on a new manager, the waiters of every session stand in the order in which they
-- began to wait, and no two of them are the same waiter.
pub reachable-IsQueued :
    (c : ParallelConfig) (cs : List Call) → IsQueued (run_calls (new_manager c) cs)
unfolding new_manager Dict.values
reachable-IsQueued c cs = run_calls-IsQueued (new_manager c) cs tt

slot_freed :
    (c : ParallelConfig) (st : SessionState) (run next : String)
    → c.enabled ≡ true
    → IsWithin c st
    → Members.has run st.active ≡ true
    → Members.has next st.active ≡ false
    → st.total_started < c.max_total_per_session
    → (acquire_slot c (record st { active = Members.delete run st.active }) next).1 ≡ accepted
unfolding acquire_slot
slot_freed c st run next on v held apart room =
    ground
      (arith, has-delete run next st.active, length-delete_member run st.active v.distinct held)

drain_accepted :
    (c : ParallelConfig) (st : SessionState) (w : Waiter) (ws : List Waiter)
    → (acquire_slot c st w.run_id).1 ≡ accepted
    → (drain_waiters c (w ∷ ws) st).1
      ≡ (w, accepted) ∷ (drain_waiters c ws (acquire_slot c st w.run_id).0).1
unfolding drain_waiters
drain_accepted c st w ws e = rw e

-- A slot that is given back goes to the longest waiter: if the manager is enabled, the run that
-- is released holds a slot of a session within its limits, the head of the session's queue asks
-- for a run that holds none, and the session may still start a run, then the first promise that
-- `release` settles is the head's, which is accepted.
pub release_serves_oldest :
    (m : Manager) (sid run : String) (st : SessionState) (w : Waiter) (ws : List Waiter)
    → m.config.enabled ≡ true
    → Dict.get sid m.sessions ≡ some st
    → IsWithin m.config st
    → st.waiters ≡ w ∷ ws
    → Members.has run st.active ≡ true
    → Members.has w.run_id st.active ≡ false
    → st.total_started < m.config.max_total_per_session
    → (later : List (Waiter × AcquireResult)) × ((release m sid run).1 ≡ (w, accepted) ∷ later)
unfolding release
release_serves_oldest m sid run st w ws on e v q held apart room =
    let freed : SessionState = record st { active = Members.delete run st.active } in
    (
      (drain_waiters m.config ws (acquire_slot m.config freed w.run_id).0).1,
      rw (e, release)
          (ap (λ l. (drain_waiters m.config l freed).1) q
            ∙ drain_accepted m.config freed w ws
                (slot_freed m.config st run w.run_id on v held apart room)),
    )
