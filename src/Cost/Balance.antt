-- ===== src/Cost/Balance.antt =====
-- The token counts of a session, of its models and of its skills agree, through every method of the
-- tracker (packages/brewva-runtime/src/cost/tracker.ts and fold.ts).
use pi_roaster.Base.{
  ℕ, ◌+◌, ◌≡◌, refl, sym, ◌∙◌, String, Option, none, some, List, [], ◌∷◌, All, inl, inr, Bool-cases,
  Option-cases, or_else, ◌==◌, string_eq, if_cases, arith, ltb, ◌&&◌,
}
use pi_roaster.Base.Dict
use pi_roaster.Base.Dict.{Dict, map_values}
use pi_roaster.Cost.{
  Totals, Usage, CostContext, Alert, SkillCost, CostConfig, CostState, empty_totals, add_totals,
  empty_cost_state, fresh_skill, skill_of, use_skill, apply_usage, ExceedAction,
}
use pi_roaster.Cost.Updates.{
  record_tool_call, threshold_due, raise_threshold, cap_due, raise_cap, threshold_alert, cap_alert,
  collect_alerts, settle, record_usage, RawUpdate, coerce_update, apply_cost_update,
}
use pi_roaster.Cost.Summary.{
  SkillSummary, CostSummary, restore_skill, restore_skills, restore_cost_state, build_cost_summary,
  skill_summary,
}
use pi_roaster.Cost.Tracker.{
  get_or_create, restored_state, track_usage, get_summary, track_tool_call, restore_session,
  apply_update_event, TrackerCall, tool_called, usage_recorded, summary_asked, session_restored,
  update_applied, cleared, track, track_all,
}

-- The counts of tokens. Costs are not among them: the source adds doubles, and sums that are grouped
-- differently may differ by their rounding.
pub data Amount : Type 0 where
  input output cache_read cache_write tokens : Amount

unfoldable pub amount_of : Amount → Totals → ℕ
amount_of input t = t.input_tokens
amount_of output t = t.output_tokens
amount_of cache_read t = t.cache_read_tokens
amount_of cache_write t = t.cache_write_tokens
amount_of tokens t = t.total_tokens

unfoldable pub sum_of {ℓ} : {V : Type ℓ} → (V → ℕ) → Dict V → ℕ
sum_of f [] = 0
sum_of f ((k, v) ∷ m) = f v + sum_of f m

-- An entry that is replaced changes the sum by what it changes itself.
sum_of-set {ℓ} :
    {V : Type ℓ} (f : V → ℕ) (k : String) (v d : V) (m : Dict V)
    → f d ≡ 0
    → sum_of f (Dict.set k v m) + f (or_else (Dict.get k m) d) ≡ sum_of f m + f v
unfolding sum_of Dict.set Dict.get
sum_of-set f k v d [] zero = omega (arith, zero)
sum_of-set f k v d ((j, w) ∷ m) zero = elim (Bool-cases (j == k)) [
  | inl hit ↦ rw hit (omega arith)
  | inr miss ↦ rw miss (omega (arith, sum_of-set f k v d m zero))
]

amount_of-add_totals :
    (a : Amount) (t u : Totals) → amount_of a (add_totals t u) ≡ amount_of a t + amount_of a u
unfolding amount_of add_totals
amount_of-add_totals input t u = refl
amount_of-add_totals output t u = refl
amount_of-add_totals cache_read t u = refl
amount_of-add_totals cache_write t u = refl
amount_of-add_totals tokens t u = refl

amount_of-empty : (a : Amount) → amount_of a empty_totals ≡ 0
unfolding amount_of
amount_of-empty input = refl
amount_of-empty output = refl
amount_of-empty cache_read = refl
amount_of-empty cache_write = refl
amount_of-empty tokens = refl

-- Adding to the entry of a key adds as much to the sum.
sum_of-added {ℓ} :
    {V : Type ℓ} (f : V → ℕ) (k : String) (v d : V) (n : ℕ) (m : Dict V)
    → f d ≡ 0
    → f v ≡ f (or_else (Dict.get k m) d) + n
    → sum_of f (Dict.set k v m) ≡ sum_of f m + n
sum_of-added f k v d n m zero added = omega (arith, sum_of-set f k v d m zero)

-- Of every count, the models' totals and the skills' totals each add up to the session's.
pub record IsBalanced (s : CostState) : Type 0 where
  pub models_add_up : (a : Amount) → sum_of (amount_of a) s.models ≡ amount_of a s.totals
  pub skills_add_up :
      (a : Amount) → sum_of (λ k. amount_of a k.totals) s.skills ≡ amount_of a s.totals

pub record IsBalancedSummary (s : CostSummary) : Type 0 where
  pub models_add_up : (a : Amount) → sum_of (amount_of a) s.models ≡ amount_of a s.totals
  pub skills_add_up :
      (a : Amount) → sum_of (λ k. amount_of a k.totals) s.skills ≡ amount_of a s.totals

pub empty-IsBalanced : (action : ExceedAction) → IsBalanced (empty_cost_state action)
unfolding sum_of
empty-IsBalanced action = record {
  models_add_up = λ a. sym (amount_of-empty a);
  skills_add_up = λ a. sym (amount_of-empty a);
}

pub apply_usage-IsBalanced :
    (usage : Usage) (context : CostContext) (s : CostState)
    → IsBalanced s
    → IsBalanced (apply_usage usage context s)
unfolding apply_usage use_skill
apply_usage-IsBalanced usage context s h = record {
  models_add_up = λ a.
      sum_of-added (amount_of a) usage.model _ empty_totals (amount_of a usage.amounts) s.models
        (amount_of-empty a) (amount_of-add_totals a _ usage.amounts)
      ∙ omega (arith, h.models_add_up a, amount_of-add_totals a s.totals usage.amounts);
  skills_add_up = λ a.
      sum_of-added (λ k. amount_of a k.totals) (skill_of context.skill) _ fresh_skill
        (amount_of a usage.amounts) s.skills (amount_of-empty a)
        (amount_of-add_totals a _ usage.amounts)
      ∙ omega (arith, h.skills_add_up a, amount_of-add_totals a s.totals usage.amounts);
}

-- Whatever leaves the totals, the models and the skills keeps the balance.
keep-IsBalanced :
    (s s' : CostState)
    → s'.totals ≡ s.totals
    → s'.models ≡ s.models
    → s'.skills ≡ s.skills
    → IsBalanced s
    → IsBalanced s'
keep-IsBalanced s s' et em es h = record {
  models_add_up = λ a. rw (et, em) (h.models_add_up a);
  skills_add_up = λ a. rw (et, es) (h.skills_add_up a);
}

threshold_alert-IsBalanced :
    (c : CostConfig) (timestamp : ℕ) (s : CostState)
    → IsBalanced s
    → IsBalanced (threshold_alert c timestamp s).0
unfolding threshold_alert
threshold_alert-IsBalanced c timestamp s h =
    if_cases (λ (q : CostState × List Alert). IsBalanced q.0) (threshold_due c s)
      {x = raise_threshold c timestamp s} {y = (s, [])}
      (λ _. keep-IsBalanced s (raise_threshold c timestamp s).0 refl refl refl h) (λ _. h)

cap_alert-IsBalanced :
    (c : CostConfig) (timestamp : ℕ) (s : CostState)
    → IsBalanced s
    → IsBalanced (cap_alert c timestamp s).0
unfolding cap_alert
cap_alert-IsBalanced c timestamp s h =
    if_cases (λ (q : CostState × List Alert). IsBalanced q.0) (cap_due c s)
      {x = raise_cap c timestamp s} {y = (s, [])}
      (λ _. keep-IsBalanced s (raise_cap c timestamp s).0 refl refl refl h) (λ _. h)

collect_alerts-IsBalanced :
    (c : CostConfig) (timestamp : ℕ) (s : CostState)
    → IsBalanced s
    → IsBalanced (collect_alerts c timestamp s).0
unfolding collect_alerts
collect_alerts-IsBalanced c timestamp s h =
    if_cases (λ (q : CostState × List Alert). IsBalanced q.0)
      (c.enabled && ltb 0 c.max_cost_per_session) {x = _} {y = (s, [])}
      (λ _. cap_alert-IsBalanced c timestamp _ (threshold_alert-IsBalanced c timestamp s h))
      (λ _. h)

pub record_usage-IsBalanced :
    (c : CostConfig) (usage : Usage) (context : CostContext) (timestamp : ℕ) (s : CostState)
    → IsBalanced s
    → IsBalanced (record_usage c usage context timestamp s).0
unfolding record_usage
record_usage-IsBalanced c usage context timestamp s h =
    let s' = apply_usage usage context s in
    collect_alerts-IsBalanced c timestamp (settle c timestamp s') (
      keep-IsBalanced s' (settle c timestamp s') refl refl refl
        (apply_usage-IsBalanced usage context s h))

pub apply_cost_update-IsBalanced :
    (r : RawUpdate) (timestamp turn : ℕ) (s : CostState)
    → IsBalanced s
    → IsBalanced (apply_cost_update r timestamp turn s)
unfolding apply_cost_update
apply_cost_update-IsBalanced r timestamp turn s h = elim (Option-cases (coerce_update r)) [
  | inl missing ↦ rw (missing, apply_cost_update) h
  | inr (usage, found) ↦
      rw (found, apply_cost_update)
        (keep-IsBalanced _ _ refl refl refl (apply_usage-IsBalanced usage _ s h))
]

sum_of-restored :
    (a : Amount) (turns : Dict ℕ) (m : Dict SkillSummary)
    → sum_of (λ k. amount_of a k.totals) (restore_skills turns m)
      ≡ sum_of (λ k. amount_of a k.totals) m
unfolding sum_of restore_skills restore_skill
sum_of-restored a turns [] = refl
sum_of-restored a turns ((name, k) ∷ m) = omega (arith, sum_of-restored a turns m)

restored-IsBalanced :
    (c : CostConfig) (snapshot : CostSummary) (turns : Dict ℕ)
    → IsBalancedSummary snapshot
    → IsBalanced (restored_state c snapshot turns)
unfolding restored_state restore_cost_state
restored-IsBalanced c snapshot turns h = record {
  models_add_up = h.models_add_up;
  skills_add_up = λ a. sum_of-restored a turns snapshot.skills ∙ h.skills_add_up a;
}

-- A snapshot that `restore` is given is balanced.
abbrev pub IsSound : TrackerCall → Type 0
IsSound (session_restored id (some snapshot) turns) = IsBalancedSummary snapshot
IsSound _ = Unit

get_or_create-IsBalanced :
    (c : CostConfig) (id : String) (m : Dict CostState)
    → All IsBalanced (Dict.values m)
    → IsBalanced (get_or_create c id m)
unfolding get_or_create
get_or_create-IsBalanced c id m h = elim (Option-cases (Dict.get id m)) [
  | inl missing ↦ rw missing (empty-IsBalanced c.action_on_exceed)
  | inr (s, found) ↦ rw found (Dict.All-get IsBalanced id m s h found)
]

pub track-IsBalanced :
    (c : CostConfig) (call : TrackerCall) (m : Dict CostState)
    → IsSound call
    → All IsBalanced (Dict.values m)
    → All IsBalanced (Dict.values (track c call m))
unfolding track track_tool_call track_usage get_summary restore_session apply_update_event
    record_tool_call
track-IsBalanced c (tool_called id tool turn counting) m sound h =
    Dict.All-set IsBalanced id m _ h
      (keep-IsBalanced _ _ refl refl refl (get_or_create-IsBalanced c id m h))
track-IsBalanced c (usage_recorded id usage context timestamp) m sound h =
    Dict.All-set IsBalanced id m _ h
      (record_usage-IsBalanced c usage context timestamp _ (get_or_create-IsBalanced c id m h))
track-IsBalanced c (summary_asked id) m sound h =
    Dict.All-set IsBalanced id m _ h (get_or_create-IsBalanced c id m h)
track-IsBalanced c (session_restored id none turns) m sound h = h
track-IsBalanced c (session_restored id (some snapshot) turns) m sound h =
    Dict.All-set IsBalanced id m _ h (restored-IsBalanced c snapshot turns sound)
track-IsBalanced c (update_applied id none turn timestamp) m sound h = h
track-IsBalanced c (update_applied id (some r) turn timestamp) m sound h =
    Dict.All-set IsBalanced id m _ h
      (apply_cost_update-IsBalanced r timestamp turn _ (get_or_create-IsBalanced c id m h))
track-IsBalanced c (cleared id) m sound h = Dict.All-delete IsBalanced id m h

-- Through any calls of the tracker, where each snapshot that is restored is balanced, every session
-- stays balanced: of each of the five token counts, what its models add up to and what its skills add up
-- to are both the session's total.
pub track_all-IsBalanced :
    (c : CostConfig) (calls : List TrackerCall) (m : Dict CostState)
    → All IsSound calls
    → All IsBalanced (Dict.values m)
    → All IsBalanced (Dict.values (track_all c calls m))
unfolding track_all
track_all-IsBalanced c [] m sound h = h
track_all-IsBalanced c (call ∷ calls) m sound h =
    track_all-IsBalanced c calls (track c call m) sound.1 (track-IsBalanced c call m sound.0 h)

sum_of-summary :
    (a : Amount) (m : Dict SkillCost)
    → sum_of (λ k. amount_of a k.totals) (map_values skill_summary m)
      ≡ sum_of (λ k. amount_of a k.totals) m
unfolding sum_of map_values
sum_of-summary a [] = refl
sum_of-summary a ((name, k) ∷ m) = omega (arith, sum_of-summary a m)

-- The summary of a balanced state is balanced, so it may be restored.
pub summary-IsBalanced :
    (c : Option CostConfig) (s : CostState)
    → IsBalanced s
    → IsBalancedSummary (build_cost_summary c s)
unfolding build_cost_summary
summary-IsBalanced c s h = record {
  models_add_up = h.models_add_up;
  skills_add_up = λ a. sum_of-summary a s.skills ∙ h.skills_add_up a;
}
