-- ===== src/Cost/Alerts.antt =====
-- The alerts and the budget of a session are as its total cost says
-- (packages/brewva-runtime/src/cost/fold.ts, `collectAlerts` and `computeBudgetStatus`).
use pi_roaster.Base.{
  ℕ, suc, ◌+◌, ◌≡◌, refl, sym, ◌∙◌, String, Bool, true, false, ◌&&◌, ltb, leb, List, [], ◌∷◌, ◌++◌,
  if◌then◌else◌, if_cases, arith,
}
use pi_roaster.Base.Numeric.{JsNumber}
use pi_roaster.Cost.{
  Usage, CostContext, AlertKind, Alert, CostConfig, CostState, empty_cost_state, is_exceeded,
  compute_budget_status, add_totals, apply_usage,
}
use pi_roaster.Cost.Updates.{
  record_tool_call, threshold_due, raise_threshold, threshold_alert, cap_due, raise_cap, cap_alert,
  collect_alerts, settle, record_usage, is_cap,
}
use pi_roaster.Cost.Summary.{is_threshold}

-- The alerts of a kind, counted.
unfoldable pub count_alerts : (AlertKind → Bool) → List Alert → ℕ
count_alerts p [] = 0
count_alerts p (a ∷ rest) = let n = count_alerts p rest in if p a.kind then suc n else n

-- A cost is warned of from the threshold on, in a session that has a cap.
unfoldable pub is_warned : CostConfig → ℕ → Bool
is_warned c cost =
    c.enabled
    && ltb 0 c.max_cost_per_session
    && ltb 0 c.alert_threshold
    && leb c.alert_threshold cost

abbrev pub one_if : Bool → ℕ
one_if true = 1
one_if false = 0

-- Each kind of alert was raised once if the total cost has reached its bound, and never otherwise;
-- the flags and the budget say the same.
pub record IsAlerted (c : CostConfig) (s : CostState) : Type 0 where
  pub cap_flag : s.session_cap_alerted ≡ is_exceeded c s.totals.total_cost
  pub threshold_flag : s.session_threshold_alerted ≡ is_warned c s.totals.total_cost
  pub cap_count : count_alerts is_cap s.alerts ≡ one_if s.session_cap_alerted
  pub threshold_count : count_alerts is_threshold s.alerts ≡ one_if s.session_threshold_alerted
  pub budget_computed : s.budget ≡ compute_budget_status c s

-- The state before the alerts are collected: a flag that is set is set rightly.
record IsSettled (c : CostConfig) (s : CostState) : Type 0 where
  cap_sound : s.session_cap_alerted ≡ true → is_exceeded c s.totals.total_cost ≡ true
  threshold_sound : s.session_threshold_alerted ≡ true → is_warned c s.totals.total_cost ≡ true
  cap_count : count_alerts is_cap s.alerts ≡ one_if s.session_cap_alerted
  threshold_count : count_alerts is_threshold s.alerts ≡ one_if s.session_threshold_alerted
  budget_computed : s.budget ≡ compute_budget_status c s

is_exceeded-grows :
    (c : CostConfig) (m n : ℕ) → is_exceeded c m ≡ true → is_exceeded c (m + n) ≡ true
unfolding is_exceeded
is_exceeded-grows c m n h = ground arith

is_warned-grows : (c : CostConfig) (m n : ℕ) → is_warned c m ≡ true → is_warned c (m + n) ≡ true
unfolding is_warned
is_warned-grows c m n h = ground arith

settle-IsSettled :
    (c : CostConfig) (usage : Usage) (context : CostContext) (timestamp : ℕ) (s : CostState)
    → IsAlerted c s
    → IsSettled c (settle c timestamp (apply_usage usage context s))
unfolding apply_usage add_totals compute_budget_status
settle-IsSettled c usage context timestamp s h = record {
  cap_sound = λ set.
      is_exceeded-grows c s.totals.total_cost usage.amounts.total_cost (sym h.cap_flag ∙ set);
  threshold_sound = λ set.
      is_warned-grows c s.totals.total_cost usage.amounts.total_cost (sym h.threshold_flag ∙ set);
  cap_count = h.cap_count;
  threshold_count = h.threshold_count;
  budget_computed = refl;
}

-- Whether a session's alerts are collected at all.
abbrev is_watched : CostConfig → Bool
is_watched c = c.enabled && ltb 0 c.max_cost_per_session

threshold_due-is_warned :
    (c : CostConfig) (s : CostState)
    → is_watched c ≡ true
    → threshold_due c s ≡ true
    → is_warned c s.totals.total_cost ≡ true
unfolding is_warned
threshold_due-is_warned c s on due = ground arith

not_due-is_warned :
    (c : CostConfig) (s : CostState)
    → is_watched c ≡ true
    → threshold_due c s ≡ false
    → (s.session_threshold_alerted ≡ true → is_warned c s.totals.total_cost ≡ true)
    → s.session_threshold_alerted ≡ is_warned c s.totals.total_cost
unfolding is_warned
not_due-is_warned c s on missing sound = ground arith

pub cap_due-is_exceeded :
    (c : CostConfig) (s : CostState)
    → is_watched c ≡ true
    → cap_due c s ≡ true
    → is_exceeded c s.totals.total_cost ≡ true
unfolding is_exceeded
cap_due-is_exceeded c s on due = ground arith

not_due-is_exceeded :
    (c : CostConfig) (s : CostState)
    → is_watched c ≡ true
    → cap_due c s ≡ false
    → (s.session_cap_alerted ≡ true → is_exceeded c s.totals.total_cost ≡ true)
    → s.session_cap_alerted ≡ is_exceeded c s.totals.total_cost
unfolding is_exceeded
not_due-is_exceeded c s on missing sound = ground arith

-- One more alert at the end is counted if it is of the kind.
count_alerts-last :
    (p : AlertKind → Bool) (xs : List Alert) (a : Alert)
    → count_alerts p (xs ++ a ∷ []) ≡ count_alerts p xs + one_if (p a.kind)
unfolding count_alerts
count_alerts-last p [] a = ground arith
count_alerts-last p (x ∷ xs) a = ground (arith, count_alerts-last p xs a)

raise_threshold-IsSettled :
    (c : CostConfig) (timestamp : ℕ) (s : CostState)
    → is_warned c s.totals.total_cost ≡ true
    → s.session_threshold_alerted ≡ false
    → IsSettled c s
    → IsSettled c (raise_threshold c timestamp s).0
unfolding compute_budget_status
raise_threshold-IsSettled c timestamp s warned unset h = record {
  cap_sound = h.cap_sound;
  threshold_sound = λ _. warned;
  cap_count = count_alerts-last is_cap s.alerts _ ∙ omega (arith, h.cap_count);
  threshold_count =
      count_alerts-last is_threshold s.alerts _ ∙ (rw (h.threshold_count, unset) (omega arith));
  budget_computed = h.budget_computed;
}

-- Once the first alert is settled, its flag is as the total says.
abbrev IsHalfway : CostConfig → CostState → Type 0
IsHalfway c s = IsSettled c s × (s.session_threshold_alerted ≡ is_warned c s.totals.total_cost)

due-unset :
    (c : CostConfig) (s : CostState)
    → threshold_due c s ≡ true
    → s.session_threshold_alerted ≡ false
due-unset c s due = ground arith

threshold_alert-IsHalfway :
    (c : CostConfig) (timestamp : ℕ) (s : CostState)
    → is_watched c ≡ true
    → IsSettled c s
    → IsHalfway c (threshold_alert c timestamp s).0
unfolding threshold_alert
threshold_alert-IsHalfway c timestamp s on h =
    if_cases (λ (q : CostState × List Alert). IsHalfway c q.0) (threshold_due c s)
      {x = raise_threshold c timestamp s} {y = (s, [])}
      (λ due.
        let warned = threshold_due-is_warned c s on due in
        (raise_threshold-IsSettled c timestamp s warned (due-unset c s due) h, sym warned))
      (λ missing. (h, not_due-is_warned c s on missing h.threshold_sound))

cap_due-unset :
    (c : CostConfig) (s : CostState) → cap_due c s ≡ true → s.session_cap_alerted ≡ false
cap_due-unset c s due = ground arith

raise_cap-IsAlerted :
    (c : CostConfig) (timestamp : ℕ) (s : CostState)
    → is_exceeded c s.totals.total_cost ≡ true
    → s.session_cap_alerted ≡ false
    → IsHalfway c s
    → IsAlerted c (raise_cap c timestamp s).0
unfolding compute_budget_status
raise_cap-IsAlerted c timestamp s exceeded unset h = record {
  cap_flag = sym exceeded;
  threshold_flag = h.1;
  cap_count = count_alerts-last is_cap s.alerts _ ∙ (rw (h.0.cap_count, unset) (omega arith));
  threshold_count = count_alerts-last is_threshold s.alerts _ ∙ omega (arith, h.0.threshold_count);
  budget_computed = h.0.budget_computed;
}

cap_alert-IsAlerted :
    (c : CostConfig) (timestamp : ℕ) (s : CostState)
    → is_watched c ≡ true
    → IsHalfway c s
    → IsAlerted c (cap_alert c timestamp s).0
unfolding cap_alert
cap_alert-IsAlerted c timestamp s on h =
    if_cases (λ (q : CostState × List Alert). IsAlerted c q.0) (cap_due c s)
      {x = raise_cap c timestamp s} {y = (s, [])}
      (λ due.
        raise_cap-IsAlerted c timestamp s (cap_due-is_exceeded c s on due) (cap_due-unset c s due)
          h)
      (λ missing. record {
        cap_flag = not_due-is_exceeded c s on missing h.0.cap_sound;
        threshold_flag = h.1;
        cap_count = h.0.cap_count;
        threshold_count = h.0.threshold_count;
        budget_computed = h.0.budget_computed;
      })

unwatched-cap :
    (c : CostConfig) (s : CostState)
    → is_watched c ≡ false
    → (s.session_cap_alerted ≡ true → is_exceeded c s.totals.total_cost ≡ true)
    → s.session_cap_alerted ≡ is_exceeded c s.totals.total_cost
unfolding is_exceeded
unwatched-cap c s off sound = ground arith

unwatched-threshold :
    (c : CostConfig) (s : CostState)
    → is_watched c ≡ false
    → (s.session_threshold_alerted ≡ true → is_warned c s.totals.total_cost ≡ true)
    → s.session_threshold_alerted ≡ is_warned c s.totals.total_cost
unfolding is_warned
unwatched-threshold c s off sound = ground arith

collect_alerts-IsAlerted :
    (c : CostConfig) (timestamp : ℕ) (s : CostState)
    → IsSettled c s
    → IsAlerted c (collect_alerts c timestamp s).0
unfolding collect_alerts
collect_alerts-IsAlerted c timestamp s h =
    if_cases (λ (q : CostState × List Alert). IsAlerted c q.0) (is_watched c) {x = _} {y = (s, [])}
      (λ on. cap_alert-IsAlerted c timestamp _ on (threshold_alert-IsHalfway c timestamp s on h))
      (λ off. record {
        cap_flag = unwatched-cap c s off h.cap_sound;
        threshold_flag = unwatched-threshold c s off h.threshold_sound;
        cap_count = h.cap_count;
        threshold_count = h.threshold_count;
        budget_computed = h.budget_computed;
      })

-- What happens in a session that records its own costs: a tool is called, or a model is used.
pub data CostStep : Type 0 where
  tool_used : String → JsNumber → Bool → CostStep
  model_used : Usage → CostContext → ℕ → CostStep

unfoldable pub cost_step : CostConfig → CostStep → CostState → CostState
cost_step c (tool_used tool turn counting) s = record_tool_call tool turn counting s
cost_step c (model_used usage context timestamp) s = (record_usage c usage context timestamp s).0

unfoldable pub cost_steps : CostConfig → List CostStep → CostState → CostState
cost_steps c [] s = s
cost_steps c (step ∷ steps) s = cost_steps c steps (cost_step c step s)

cost_step-IsAlerted :
    (c : CostConfig) (step : CostStep) (s : CostState)
    → IsAlerted c s
    → IsAlerted c (cost_step c step s)
unfolding cost_step record_tool_call record_usage compute_budget_status
cost_step-IsAlerted c (tool_used tool turn counting) s h = record {
  cap_flag = h.cap_flag;
  threshold_flag = h.threshold_flag;
  cap_count = h.cap_count;
  threshold_count = h.threshold_count;
  budget_computed = h.budget_computed;
}
cost_step-IsAlerted c (model_used usage context timestamp) s h =
    collect_alerts-IsAlerted c timestamp _ (settle-IsSettled c usage context timestamp s h)

cost_steps-IsAlerted :
    (c : CostConfig) (steps : List CostStep) (s : CostState)
    → IsAlerted c s
    → IsAlerted c (cost_steps c steps s)
unfolding cost_steps
cost_steps-IsAlerted c [] s h = h
cost_steps-IsAlerted c (step ∷ steps) s h =
    cost_steps-IsAlerted c steps (cost_step c step s) (cost_step-IsAlerted c step s h)

is_exceeded-nothing : (c : CostConfig) → is_exceeded c 0 ≡ false
unfolding is_exceeded
is_exceeded-nothing c = ground arith

is_warned-nothing : (c : CostConfig) → is_warned c 0 ≡ false
unfolding is_warned
is_warned-nothing c = ground arith

and_false : (b : Bool) → (b && false) ≡ false
and_false b = ground arith

empty-IsAlerted : (c : CostConfig) → IsAlerted c (empty_cost_state c.action_on_exceed)
unfolding compute_budget_status count_alerts
empty-IsAlerted c = record {
  cap_flag = sym (is_exceeded-nothing c);
  threshold_flag = sym (is_warned-nothing c);
  cap_count = refl;
  threshold_count = refl;
  budget_computed = rw (is_exceeded-nothing c, and_false) refl;
}

-- In a session that began empty and recorded any tool calls and usages under one configuration, each
-- kind of alert was raised once if the total cost has reached its bound in a session that is watched,
-- and not at all otherwise; the flags and the budget status say the same of the total.
pub session-IsAlerted :
    (c : CostConfig) (steps : List CostStep)
    → IsAlerted c (cost_steps c steps (empty_cost_state c.action_on_exceed))
session-IsAlerted c steps = cost_steps-IsAlerted c steps _ (empty-IsAlerted c)
