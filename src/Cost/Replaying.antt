-- ===== src/Cost/Replaying.antt =====
-- The alerts that are collected, told again by the payloads that are recorded of them
-- (packages/brewva-runtime/src/services/cost.ts and packages/brewva-runtime/src/cost/fold.ts).
use pi_roaster.Base.{
  ℕ, suc, none, ◌⊎◌, Bool, max, ◌≡◌, refl, sym, ◌∙◌, ap, subst, true, false, ◌&&◌, Option, some,
  List, [], ◌∷◌, ◌++◌, map, inl, inr, Option-cases, if_cases, ltb, or_else, arith,
}
use pi_roaster.Cost.{
  AlertKind, ExceedAction, session_threshold, session_cap, Alert, CostConfig, CostState,
  compute_budget_status, is_exceeded,
}
use pi_roaster.Cost.Updates.{
  RawAlert, RawBudget, parse_budget, read_alert, budget_after, apply_budget_alert, settle, alert_of,
  later_of, threshold_due, raise_threshold, threshold_alert, cap_due, raise_cap, cap_alert,
  collect_alerts,
}
use pi_roaster.Cost.Alerts.{cap_due-is_exceeded}
use pi_roaster.Cost.Service.{alert_payload}

-- The alerts' payloads, applied in turn, each at its own reading of the clock.
unfoldable pub apply_alerts : List RawAlert → (ℕ → ℕ) → CostState → CostState
apply_alerts [] times s = s
apply_alerts (r ∷ rs) times s =
    apply_alerts rs (λ n. times (suc n)) (apply_budget_alert r (times 0) s)

-- The costs without what says that an alert was raised.
abbrev pub unflagged : CostState → CostState
unflagged s = record s { session_threshold_alerted = false; session_cap_alerted = false }

-- An alert without its time.
abbrev pub undated : Alert → Alert
undated a = record a { timestamp = 0 }

-- The costs without the readings of the clock, and without what says that an alert was raised.
abbrev pub timeless : CostState → CostState
timeless s = record s {
  session_threshold_alerted = false;
  session_cap_alerted = false;
  alerts = map undated s.alerts;
  updated_at = none;
}

-- A state after a usage, whose alerts are still to be collected at its time.
pub record IsReady (c : CostConfig) (timestamp : ℕ) (s : CostState) : Type 0 where
  pub budget_computed : s.budget ≡ compute_budget_status c s
  pub time_passed : later_of s.updated_at timestamp ≡ s.updated_at

max_idem : (m n : ℕ) → max (max m n) n ≡ max m n
max_idem m n = omega arith

later_of_idem : (u : Option ℕ) (t : ℕ) → later_of (later_of u t) t ≡ later_of u t
later_of_idem u t = ap some (max_idem (or_else u 0) t)

pub settle-IsReady :
    (c : CostConfig) (timestamp : ℕ) (s : CostState) → IsReady c timestamp (settle c timestamp s)
unfolding compute_budget_status
settle-IsReady c timestamp s = record {
  budget_computed = refl;
  time_passed = later_of_idem s.updated_at timestamp;
}

threshold_budget :
    (c : CostConfig) (a : Alert) (s : CostState)
    → s.budget ≡ compute_budget_status c s
    → budget_after (alert_payload c.action_on_exceed a) session_threshold s.budget ≡ s.budget
unfolding budget_after parse_budget compute_budget_status
threshold_budget c a s h =
    subst (λ b. budget_after (alert_payload c.action_on_exceed a) session_threshold b ≡ b) (sym h)
      refl

cap_budget :
    (c : CostConfig) (a : Alert) (s : CostState)
    → is_exceeded c s.totals.total_cost ≡ true
    → s.budget ≡ compute_budget_status c s
    → budget_after (alert_payload c.action_on_exceed a) session_cap s.budget ≡ s.budget
unfolding budget_after parse_budget compute_budget_status
cap_budget c a s exceeded h =
    subst (λ b. budget_after (alert_payload c.action_on_exceed a) session_cap b ≡ b) (sym h)
      (rw exceeded refl)

-- An alert that leaves the budget and the time is appended, and nothing else.
appends_alert :
    (r : RawAlert) (timestamp : ℕ) (a : Alert) (s : CostState)
    → read_alert r timestamp ≡ some a
    → budget_after r a.kind s.budget ≡ s.budget
    → later_of s.updated_at timestamp ≡ s.updated_at
    → apply_budget_alert r timestamp s ≡ record s { alerts = s.alerts ++ a ∷ [] }
unfolding apply_budget_alert
appends_alert r timestamp a s read budget time =
    rw (read, apply_budget_alert)
      (ap
          (λ b. record s {
            alerts = s.alerts ++ a ∷ [];
            budget = b;
            updated_at = later_of s.updated_at timestamp;
          })
          budget
        ∙ ap (λ u. record s { alerts = s.alerts ++ a ∷ []; updated_at = u }) time)

-- What the alerts' payloads make of a state is what the alerts did to it, but for the flags.
abbrev pub IsReplayed : CostConfig → ℕ → CostState → CostState × List Alert → Type 0
IsReplayed c timestamp s q =
    unflagged (apply_alerts (map (alert_payload c.action_on_exceed) q.1) (λ _. timestamp) s)
    ≡ unflagged q.0

threshold_alert-IsReplayed :
    (c : CostConfig) (timestamp : ℕ) (s : CostState)
    → IsReady c timestamp s
    → IsReplayed c timestamp s (threshold_alert c timestamp s)
unfolding threshold_alert apply_alerts read_alert
threshold_alert-IsReplayed c timestamp s h =
    let a = alert_of session_threshold timestamp s.totals.total_cost c.alert_threshold in
    if_cases (IsReplayed c timestamp s) (threshold_due c s) {x = raise_threshold c timestamp s}
      {y = (s, [])}
      (λ due. ap unflagged (
        appends_alert (alert_payload c.action_on_exceed a) timestamp a s refl
          (threshold_budget c a s h.budget_computed) h.time_passed))
      (λ _. refl)

cap_alert-IsReplayed :
    (c : CostConfig) (timestamp : ℕ) (s : CostState)
    → (c.enabled && ltb 0 c.max_cost_per_session) ≡ true
    → IsReady c timestamp s
    → IsReplayed c timestamp s (cap_alert c timestamp s)
unfolding cap_alert apply_alerts read_alert
cap_alert-IsReplayed c timestamp s on h =
    let a = alert_of session_cap timestamp s.totals.total_cost c.max_cost_per_session in
    if_cases (IsReplayed c timestamp s) (cap_due c s) {x = raise_cap c timestamp s} {y = (s, [])}
      (λ due. ap unflagged (
        appends_alert (alert_payload c.action_on_exceed a) timestamp a s refl
          (cap_budget c a s (cap_due-is_exceeded c s on due) h.budget_computed) h.time_passed))
      (λ _. refl)

threshold_alert-IsReady :
    (c : CostConfig) (timestamp : ℕ) (s : CostState)
    → IsReady c timestamp s
    → IsReady c timestamp (threshold_alert c timestamp s).0
unfolding threshold_alert compute_budget_status
threshold_alert-IsReady c timestamp s h =
    if_cases (λ (q : CostState × List Alert). IsReady c timestamp q.0) (threshold_due c s)
      {x = raise_threshold c timestamp s} {y = (s, [])}
      (λ _. record { budget_computed = h.budget_computed; time_passed = h.time_passed }) (λ _. h)

apply_budget_alert-unflagged :
    (r : RawAlert) (timestamp : ℕ) (s : CostState)
    → unflagged (apply_budget_alert r timestamp s) ≡ apply_budget_alert r timestamp (unflagged s)
unfolding apply_budget_alert
apply_budget_alert-unflagged r timestamp s = elim (Option-cases (read_alert r timestamp)) [
  | inl missing ↦ rw (missing, apply_budget_alert) refl
  | inr (a, found) ↦ rw (found, apply_budget_alert) refl
]

apply_alerts-unflagged :
    (rs : List RawAlert) (timestamp : ℕ) (s : CostState)
    → unflagged (apply_alerts rs (λ _. timestamp) s)
      ≡ apply_alerts rs (λ _. timestamp) (unflagged s)
unfolding apply_alerts
apply_alerts-unflagged [] timestamp s = refl
apply_alerts-unflagged (r ∷ rs) timestamp s =
    apply_alerts-unflagged rs timestamp (apply_budget_alert r timestamp s)
    ∙ ap (apply_alerts rs (λ _. timestamp)) (apply_budget_alert-unflagged r timestamp s)

apply_alerts-append :
    (f : Alert → RawAlert) (xs ys : List Alert) (timestamp : ℕ) (s : CostState)
    → apply_alerts (map f (xs ++ ys)) (λ _. timestamp) s
      ≡ apply_alerts (map f ys) (λ _. timestamp) (apply_alerts (map f xs) (λ _. timestamp) s)
unfolding apply_alerts
apply_alerts-append f [] ys timestamp s = refl
apply_alerts-append f (x ∷ xs) ys timestamp s =
    apply_alerts-append f xs ys timestamp (apply_budget_alert (f x) timestamp s)

pub collect_alerts-IsReplayed :
    (c : CostConfig) (timestamp : ℕ) (s : CostState)
    → IsReady c timestamp s
    → IsReplayed c timestamp s (collect_alerts c timestamp s)
unfolding collect_alerts apply_alerts
collect_alerts-IsReplayed c timestamp s h =
    let f = alert_payload c.action_on_exceed in
    let first = threshold_alert c timestamp s in
    let second = cap_alert c timestamp first.0 in
    if_cases (IsReplayed c timestamp s) (c.enabled && ltb 0 c.max_cost_per_session)
      {x = (second.0, first.1 ++ second.1)} {y = (s, [])}
      (λ on.
        ap unflagged (apply_alerts-append f first.1 second.1 timestamp s)
        ∙ apply_alerts-unflagged (map f second.1) timestamp
            (apply_alerts (map f first.1) (λ _. timestamp) s)
        ∙ ap (apply_alerts (map f second.1) (λ _. timestamp))
            (threshold_alert-IsReplayed c timestamp s h)
        ∙ sym (apply_alerts-unflagged (map f second.1) timestamp first.0)
        ∙ cap_alert-IsReplayed c timestamp first.0 on (threshold_alert-IsReady c timestamp s h))
      (λ _. refl)

-- An alert that is appended is told without its time.
undated-append :
    (xs : List Alert) (a b : Alert)
    → undated a ≡ undated b
    → map undated (xs ++ a ∷ []) ≡ map undated (map undated xs ++ b ∷ [])
undated-append [] a b h = ap (λ x. x ∷ []) h
undated-append (x ∷ xs) a b h = ap (λ ys. undated x ∷ ys) (undated-append xs a b h)

undated_idem : (xs : List Alert) → map undated xs ≡ map undated (map undated xs)
undated_idem [] = refl
undated_idem (x ∷ xs) = ap (λ ys. undated x ∷ ys) (undated_idem xs)

-- A payload is read at any two times or at none, to the same alert but for its time.
abbrev AreAlike : ℕ → ℕ → Option Alert → Option Alert → Type 0
AreAlike t u a b =
    (a ≡ none × b ≡ none)
    ⊎ (k : AlertKind) × (c : ℕ) × (h : ℕ) × a ≡ some (alert_of k t c h)
      × b ≡ some (alert_of k u c h)

read_alert-parts :
    (session : Bool) (kind : Option AlertKind) (cost threshold : Option ℕ)
    (budget : Option RawBudget) (action : Option ExceedAction) (t u : ℕ)
    → let r : RawAlert = record {
      kind = kind;
      is_session = session;
      cost = cost;
      threshold = threshold;
      budget = budget;
      action = action;
    } in
      AreAlike t u (read_alert r t) (read_alert r u)
unfolding read_alert
read_alert-parts false k c h b a t u = inl (refl, refl)
read_alert-parts true none c h b a t u = inl (refl, refl)
read_alert-parts true (some k) none h b a t u = inl (refl, refl)
read_alert-parts true (some k) (some c) none b a t u = inl (refl, refl)
read_alert-parts true (some k) (some c) (some h) b a t u = inr (k, c, h, refl, refl)

apply_budget_alert-timeless :
    (r : RawAlert) (t u : ℕ) (s : CostState)
    → timeless (apply_budget_alert r t s) ≡ timeless (apply_budget_alert r u (timeless s))
unfolding apply_budget_alert
apply_budget_alert-timeless r t u s =
    elim (read_alert-parts r.is_session r.kind r.cost r.threshold r.budget r.action t u) [
      | inl (first, second) ↦
          rw (first, apply_budget_alert)
            (rw (second, apply_budget_alert)
              (ap (λ xs. record (timeless s) { alerts = xs }) (undated_idem s.alerts)))
      | inr (k, c, h, first, second) ↦
          rw (first, apply_budget_alert)
            (rw (second, apply_budget_alert)
              (ap (λ xs. record (timeless s) { alerts = xs; budget = budget_after r k s.budget })
                (undated-append s.alerts (alert_of k t c h) (alert_of k u c h) refl)))
    ]

-- At whatever times the alerts' payloads are applied, the costs differ in no more than the times.
pub apply_alerts-timeless :
    (rs : List RawAlert) (times times' : ℕ → ℕ) (s s' : CostState)
    → timeless s ≡ timeless s'
    → timeless (apply_alerts rs times s) ≡ timeless (apply_alerts rs times' s')
unfolding apply_alerts
apply_alerts-timeless [] times times' s s' h = h
apply_alerts-timeless (r ∷ rs) times times' s s' h =
    apply_alerts-timeless rs (λ n. times (suc n)) (λ n. times' (suc n)) _ _
      (apply_budget_alert-timeless r (times 0) 0 s
        ∙ ap (λ q. timeless (apply_budget_alert r 0 q)) h
        ∙ sym (apply_budget_alert-timeless r (times' 0) 0 s'))
