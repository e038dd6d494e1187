-- ===== src/Tape/Shown.antt =====
-- The cost summary of a view is that of its fold of costs
-- (packages/brewva-runtime/src/tape/replay-engine.ts).
use pi_roaster.Base.{
  ℕ, ◌≡◌, refl, sym, ◌∙◌, ap, subst, String, Option, none, some, List, [], ◌∷◌, Bool, true, false,
  is_some, inl, inr, Option-cases, arith,
}
use pi_roaster.Base.Numeric.{JsNumber}
use pi_roaster.Base.Text.{normalize_optional}
use pi_roaster.Cost.{CostState}
use pi_roaster.Cost.Updates.{
  RawUpdate, coerce_update, apply_cost_update, RawAlert, read_alert, apply_budget_alert,
}
use pi_roaster.Tape.{normalize_turn}
use pi_roaster.Tape.View.{
  with_cost, Event, EventBody, checkpoint, task_event, truth_event, anchor, tool_result,
  tool_marked, cost_updated, budget_alerted, projection_refreshed, other, View, to_replay_cost,
  empty_view, checkpoint_view, read_checkpoint, mark_tool, apply_body, apply_event, apply_events,
  build_view,
}
use pi_roaster.Tape.Equivalence.{build_view-apply_events}

-- The summary that a view shows is that of its fold of costs.
abbrev IsShown : View → Type 0
IsShown v = v.cost ≡ to_replay_cost v.cost_fold

with_cost-IsShown :
    (b : Bool) (s : CostState) (v : View)
    → (b ≡ false → s ≡ v.cost_fold)
    → IsShown v
    → IsShown (with_cost b s v)
with_cost-IsShown true s v same h = refl
with_cost-IsShown false s v same h = h ∙ ap to_replay_cost (sym (same refl))

-- A payload that is not read leaves the fold of costs.
unread_update :
    (r : RawUpdate) (timestamp turn : ℕ) (s : CostState)
    → is_some (coerce_update r) ≡ false
    → apply_cost_update r timestamp turn s ≡ s
unfolding apply_cost_update
unread_update r timestamp turn s h = elim (Option-cases (coerce_update r)) [
  | inl missing ↦ rw (missing, apply_cost_update) refl
  | inr (u, found) ↦ absurd (ground (arith, sym h ∙ ap is_some found))
]

unread_alert :
    (r : RawAlert) (timestamp : ℕ) (s : CostState)
    → is_some (read_alert r timestamp) ≡ false
    → apply_budget_alert r timestamp s ≡ s
unfolding apply_budget_alert
unread_alert r timestamp s h = elim (Option-cases (read_alert r timestamp)) [
  | inl missing ↦ rw (missing, apply_budget_alert) refl
  | inr (a, found) ↦ absurd (ground (arith, sym h ∙ ap is_some found))
]

mark_tool-IsShown :
    (tool : Option String) (turn : ℕ) (v : View) → IsShown v → IsShown (mark_tool tool turn v)
mark_tool-IsShown none turn v h = h
mark_tool-IsShown (some tool) turn v h = refl

apply_body-IsShown :
    (b : EventBody) (timestamp : ℕ) (at : Option JsNumber) (v : View)
    → IsShown v
    → IsShown (apply_body b timestamp at v)
unfolding apply_body
apply_body-IsShown (tool_marked tool) timestamp at v h =
    mark_tool-IsShown (normalize_optional tool) (normalize_turn at 0) v h
apply_body-IsShown (cost_updated r) timestamp at v h =
    with_cost-IsShown (is_some (coerce_update r)) _ v
      (unread_update r timestamp (normalize_turn at 0) v.cost_fold) h
apply_body-IsShown (budget_alerted r) timestamp at v h =
    with_cost-IsShown (is_some (read_alert r timestamp)) _ v (unread_alert r timestamp v.cost_fold)
      h
apply_body-IsShown anchor timestamp at v h = h
apply_body-IsShown (tool_result r) timestamp at v h = h
apply_body-IsShown (checkpoint p) timestamp at v h = h
apply_body-IsShown (task_event r) timestamp at v h = h
apply_body-IsShown (truth_event r) timestamp at v h = h
apply_body-IsShown (projection_refreshed r) timestamp at v h = h
apply_body-IsShown other timestamp at v h = h

apply_event-IsShown : (turn : ℕ) (v : View) (e : Event) → IsShown v → IsShown (apply_event turn v e)
unfolding apply_event checkpoint_view
apply_event-IsShown turn v e h = elim (Option-cases (read_checkpoint e.body)) [
  | inr (p, here) ↦ rw (here, apply_event) refl
  | inl here ↦ rw (here, apply_event) (apply_body-IsShown e.body e.timestamp e.turn v h)
]

apply_events-IsShown :
    (turn : ℕ) (v : View) (es : List Event) → IsShown v → IsShown (apply_events turn v es)
unfolding apply_events
apply_events-IsShown turn v [] h = h
apply_events-IsShown turn v (e ∷ es) h =
    apply_events-IsShown turn (apply_event turn v e) es (apply_event-IsShown turn v e h)

-- The cost summary that a view shows is that of the fold of costs it keeps, whatever its tape holds.
pub build_view-IsShown : (turn : ℕ) (es : List Event) → IsShown (build_view turn es)
unfolding empty_view
build_view-IsShown turn es =
    subst IsShown (sym (build_view-apply_events turn es))
      (apply_events-IsShown turn (empty_view turn) es refl)
