-- ===== src/Parallel/Service/Limits.antt =====
-- The limit of a skill on parallel runs, as packages/brewva-runtime/src/services/parallel.ts holds
-- it with the leases and the slots.
use pi_roaster.Base.{
  ℕ, suc, ◌≤◌, ◌<◌, ◌≡◌, ap, sym, ◌∙◌, subst, inl, inr, String, Bool, true, Option, some, [], ◌∷◌,
  leb, Bool-cases, Option-cases, length, length-append, arith,
}
use pi_roaster.Base.Dict.{get-set}
use text.Mathlib.TextEquality.{eq_iff}
use pi_roaster.Lease.{Cell, get_effective_budget}
use pi_roaster.Lease.Amounts.{SkillDocument, hard_ceiling_of, limit_on, parallel}
use pi_roaster.Lease.Effective.{effective_within_ceiling}
use pi_roaster.Parallel.Budget.{
  Manager, SessionState, ParallelConfig, skill_max_parallel, accepted, rejected, acquire,
  acquire_slot, active_run_count, get_or_create,
}
use pi_roaster.Parallel.Security.{mode_enforce}
use pi_roaster.Parallel.Service.{
  Service, Reading, read_limit, max_parallel_of, try_within, take_slot, at_limit, record_rejection,
  try_acquire_parallel_slot, acquire_parallel_slot,
}

count-acquire_slot :
    (c : ParallelConfig) (st : SessionState) (run : String)
    → length (acquire_slot c st run).0.active ≤ suc (length st.active)
unfolding acquire_slot
count-acquire_slot c st run = ground (arith, length-append st.active (run ∷ []))

active_run_count_lem :
    (m : Manager) (sid : String)
    → active_run_count m sid ≡ length (get_or_create sid m.sessions).active
unfolding active_run_count get_or_create
active_run_count_lem m sid = ground arith

-- An acquired slot adds at most one run to a session.
pub count-acquire :
    (m : Manager) (sid run : String)
    → active_run_count (acquire m sid run).0 sid ≤ suc (active_run_count m sid)
unfolding acquire
count-acquire m sid run = elim (Bool-cases m.config.enabled) [
  | inl enabled ↦ rw enabled (
      unfold active_run_count in
      ground (
        arith,
        get-set sid sid (acquire_slot m.config (get_or_create sid m.sessions) run).0 m.sessions,
        count-acquire_slot m.config (get_or_create sid m.sessions) run,
        active_run_count_lem m sid,
        eq_iff sid sid,
      ))
  | inr disabled ↦ rw disabled (omega arith)
]

slots-take_slot :
    (sid run : String) (recording : Bool) (r : Reading) (s : Service)
    → (take_slot sid run recording r s).0.slots ≡ (acquire s.slots sid run).0
unfolding take_slot record_rejection
slots-take_slot sid run recording r s = ground arith

slots-read_limit : (r : Reading) (s : Service) → (read_limit r s).0.slots ≡ s.slots
unfolding read_limit
slots-read_limit r s = ground arith

policy-read_limit : (r : Reading) (s : Service) → (read_limit r s).0.policy ≡ s.policy
unfolding read_limit
policy-read_limit r s = ground arith

max_parallel_le_ceiling :
    (skill : SkillDocument) (by : Option SkillDocument) (now t : ℕ) (cell : Cell) (n h : ℕ)
    → max_parallel_of (get_effective_budget skill (some skill.name) by now t cell).1 ≡ some n
    → limit_on parallel (hard_ceiling_of skill) ≡ some h
    → n ≤ h
unfolding max_parallel_of
max_parallel_le_ceiling skill by now t cell n h l c =
    elim (Option-cases (get_effective_budget skill (some skill.name) by now t cell).1) [
      | inl missing ↦ absurd (ground (arith, l, missing))
      | inr (b, found) ↦
          ground
            (arith, l, found, effective_within_ceiling skill by now t cell b parallel h found c)
    ]

-- What is read as the limit of a skill is within its hard ceiling.
limit_le_ceiling :
    (r : Reading) (s : Service) (skill : SkillDocument) (n h : ℕ)
    → r.active_skill ≡ some skill
    → (read_limit r s).1 ≡ some n
    → limit_on parallel (hard_ceiling_of skill) ≡ some h
    → n ≤ h
unfolding read_limit
limit_le_ceiling r s skill n h a l =
    max_parallel_le_ceiling skill (some skill) r.now r.turn s.leases n h (rw a at l)

try_within-below :
    (sid run : String) (recording : Bool) (skill : SkillDocument) (n : ℕ) (r : Reading)
    (s : Service)
    → active_run_count s.slots sid < n
    → try_within sid run recording (some skill) (some n) r s ≡ take_slot sid run recording r s
unfolding try_within
try_within-below sid run recording skill n r s l = ground (arith, l)

-- In the mode `enforce` a reached limit is an answer of its own.
try_within-reached :
    (sid run : String) (recording : Bool) (skill : SkillDocument) (n : ℕ) (r : Reading)
    (s : Service)
    → s.policy.skill_max_parallel_mode ≡ mode_enforce
    → 0 < n
    → n ≤ active_run_count s.slots sid
    → (try_within sid run recording (some skill) (some n) r s).1 ≡ rejected skill_max_parallel
unfolding try_within at_limit
try_within-reached sid run recording skill n r s e p l = ground (arith, e, p, l)

try_within-limit :
    (sid run : String) (recording : Bool) (skill : SkillDocument) (n : ℕ) (r : Reading)
    (s : Service)
    → s.policy.skill_max_parallel_mode ≡ mode_enforce
    → 0 < n
    → (try_within sid run recording (some skill) (some n) r s).1 ≡ accepted
    → active_run_count (try_within sid run recording (some skill) (some n) r s).0.slots sid ≤ n
try_within-limit sid run recording skill n r s e p a =
    elim (Bool-cases (leb n (active_run_count s.slots sid))) [
      | inl reached ↦ absurd (
          ground (
            arith,
            a,
            try_within-reached sid run recording skill n r s e p (ground (arith, reached)),
          ))
      | inr below ↦ rw (try_within-below sid run recording skill n r s (ground (arith, below))) (
          rw (slots-take_slot sid run recording r s)
            (ground (arith, below, count-acquire s.slots sid run)))
    ]

try_acquire-known :
    (sid run : String) (recording : Bool) (r : Reading) (s : Service) (skill : SkillDocument)
    (n : ℕ)
    → r.active_skill ≡ some skill
    → (read_limit r s).1 ≡ some n
    → try_acquire_parallel_slot sid run recording r s
      ≡ try_within sid run recording (some skill) (some n) r (read_limit r s).0
unfolding try_acquire_parallel_slot
try_acquire-known sid run recording r s skill n a l =
    ap (λ o. try_within sid run recording o (read_limit r s).1 r (read_limit r s).0) a
    ∙ ap (λ o. try_within sid run recording (some skill) o r (read_limit r s).0) l

-- Where the limit of the active skill is enforced and positive, an accepted call leaves no more
-- active runs in the session than the limit that the leases give, nor than the skill's hard ceiling.
pub acquire_within_limit :
    (sid run : String) (r : Reading) (s : Service) (skill : SkillDocument) (n h : ℕ)
    → s.policy.skill_max_parallel_mode ≡ mode_enforce
    → r.active_skill ≡ some skill
    → limit_on parallel (hard_ceiling_of skill) ≡ some h
    → (read_limit r s).1 ≡ some n
    → 0 < n
    → (acquire_parallel_slot sid run r s).1 ≡ accepted
    → (active_run_count (acquire_parallel_slot sid run r s).0.slots sid ≤ n) × (n ≤ h)
unfolding acquire_parallel_slot
acquire_within_limit sid run r s skill n h e a c l p k = (
  subst (λ q. q.1 ≡ accepted → active_run_count q.0.slots sid ≤ n)
      (sym (try_acquire-known sid run true r s skill n a l))
      (try_within-limit sid run true skill n r (read_limit r s).0
        (ap (λ q. q.skill_max_parallel_mode) (policy-read_limit r s) ∙ e) p)
      k,
  limit_le_ceiling r s skill n h a l c,
)
