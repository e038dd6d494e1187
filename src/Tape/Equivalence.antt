-- ===== src/Tape/Equivalence.antt =====
-- A view that is built from the last checkpoint is the fold of all events
-- (packages/brewva-runtime/src/tape/replay-engine.ts, `buildView` and `applyEventToView`).
use pi_roaster.Base.{
  ℕ, String, Option, none, some, List, [], ◌∷◌, ◌++◌, ◌≡◌, refl, sym, ◌∙◌, ap, inl, inr,
  Option-cases,
}
use pi_roaster.Base.Numeric.{JsNumber}
use pi_roaster.Base.Text.{normalize_optional}
use pi_roaster.Tape.{normalize_turn}
use pi_roaster.Tape.View.{
  mark_tool, Event, EventBody, checkpoint, task_event, truth_event, anchor, tool_result,
  tool_marked, cost_updated, budget_alerted, projection_refreshed, other, View, empty_view,
  checkpoint_view, read_checkpoint, apply_body, apply_event, apply_events, Checkpoint, Start,
  find_checkpoint, build_view,
}

-- A fold from any view, and the same from the last checkpoint if there is one.
unfoldable from_start : ℕ → View → List Event → Option Start → View
unfolding apply_events checkpoint_view
from_start turn v es none = apply_events turn v es
from_start turn v es (some start) =
    apply_events turn (checkpoint_view turn start.id start.state) start.after

find_checkpoint-later :
    (e : Event) (es : List Event) (start : Start)
    → find_checkpoint es ≡ some start
    → find_checkpoint (e ∷ es) ≡ some start
unfolding find_checkpoint
find_checkpoint-later e es start found = rw (found, find_checkpoint) refl

find_checkpoint-here :
    (e : Event) (es : List Event) (p : Checkpoint)
    → find_checkpoint es ≡ none
    → read_checkpoint e.body ≡ some p
    → find_checkpoint (e ∷ es) ≡ some (record { id = e.id; state = p; after = es })
unfolding find_checkpoint
find_checkpoint-here e es p later here = rw (later, find_checkpoint) (rw here refl)

find_checkpoint-nowhere :
    (e : Event) (es : List Event)
    → find_checkpoint es ≡ none
    → read_checkpoint e.body ≡ none
    → find_checkpoint (e ∷ es) ≡ none
unfolding find_checkpoint
find_checkpoint-nowhere e es later here = rw (later, find_checkpoint) (rw here refl)

pub apply_event-checkpoint :
    (turn : ℕ) (v : View) (e : Event) (p : Checkpoint)
    → read_checkpoint e.body ≡ some p
    → apply_event turn v e ≡ checkpoint_view turn e.id p
unfolding apply_event
apply_event-checkpoint turn v e p here = rw (here, apply_event) refl

apply_events-from :
    (turn : ℕ) (v : View) (es : List Event)
    → apply_events turn v es ≡ from_start turn v es (find_checkpoint es)
unfolding apply_events from_start find_checkpoint
apply_events-from turn v [] = refl
apply_events-from turn v (e ∷ es) =
    let ih = apply_events-from turn (apply_event turn v e) es in
    elim (Option-cases (find_checkpoint es)) [
      | inr (start, found) ↦
          ih
          ∙ ap (from_start turn (apply_event turn v e) es) found
          ∙ ap (from_start turn v (e ∷ es)) (sym (find_checkpoint-later e es start found))
      | inl later ↦ elim (Option-cases (read_checkpoint e.body)) [
        | inr (p, here) ↦
            ap (λ w. apply_events turn w es) (apply_event-checkpoint turn v e p here)
            ∙ ap (from_start turn v (e ∷ es)) (sym (find_checkpoint-here e es p later here))
        | inl here ↦ ap (from_start turn v (e ∷ es)) (sym (find_checkpoint-nowhere e es later here))
      ]
    ]

-- The view that `buildView` makes from the last checkpoint that can be read is the fold of every
-- event of the tape, from the first one on.
pub build_view-apply_events :
    (turn : ℕ) (es : List Event) → build_view turn es ≡ apply_events turn (empty_view turn) es
unfolding build_view from_start
build_view-apply_events turn es = elim (Option-cases (find_checkpoint es)) [
  | inl missing ↦ rw (missing, build_view) refl
  | inr (start, found) ↦
      rw (found, build_view)
        (sym (
          apply_events-from turn (empty_view turn) es
          ∙ ap (from_start turn (empty_view turn) es) found))
]

pub apply_events-append :
    (turn : ℕ) (v : View) (es fs : List Event)
    → apply_events turn v (es ++ fs) ≡ apply_events turn (apply_events turn v es) fs
unfolding apply_events
apply_events-append turn v [] fs = refl
apply_events-append turn v (e ∷ es) fs = apply_events-append turn (apply_event turn v e) es fs

-- One more event at the end of a tape is applied to the view of the events before it.
pub build_view-append :
    (turn : ℕ) (es : List Event) (e : Event)
    → build_view turn (es ++ e ∷ []) ≡ apply_event turn (build_view turn es) e
unfolding apply_events
build_view-append turn es e =
    build_view-apply_events turn (es ++ e ∷ [])
    ∙ apply_events-append turn (empty_view turn) es (e ∷ [])
    ∙ ap (λ v. apply_event turn v e) (sym (build_view-apply_events turn es))

-- A view with another turn.
abbrev pub retime : ℕ → View → View
retime turn v = record v { turn = turn }

mark_tool-retime :
    (tool : Option String) (at turn : ℕ) (v : View)
    → retime turn (mark_tool tool at v) ≡ mark_tool tool at (retime turn v)
mark_tool-retime none at turn v = refl
mark_tool-retime (some tool) at turn v = refl

apply_body-retime :
    (b : EventBody) (timestamp turn : ℕ) (at : Option JsNumber) (v : View)
    → retime turn (apply_body b timestamp at v) ≡ apply_body b timestamp at (retime turn v)
unfolding apply_body
apply_body-retime (checkpoint p) timestamp turn at v = refl
apply_body-retime (task_event r) timestamp turn at v = refl
apply_body-retime (truth_event r) timestamp turn at v = refl
apply_body-retime anchor timestamp turn at v = refl
apply_body-retime (tool_result r) timestamp turn at v = refl
apply_body-retime (tool_marked tool) timestamp turn at v =
    mark_tool-retime (normalize_optional tool) (normalize_turn at 0) turn v
apply_body-retime (cost_updated r) timestamp turn at v = refl
apply_body-retime (budget_alerted r) timestamp turn at v = refl
apply_body-retime (projection_refreshed r) timestamp turn at v = refl
apply_body-retime other timestamp turn at v = refl

-- The turn that a view had is of no account to the next event.
pub apply_event-retime :
    (turn u : ℕ) (v : View) (e : Event)
    → retime turn (apply_event u v e) ≡ apply_event turn (retime turn v) e
unfolding apply_event checkpoint_view
apply_event-retime turn u v e = elim (Option-cases (read_checkpoint e.body)) [
  | inr (p, here) ↦ rw (here, apply_event) refl
  | inl here ↦
      rw (here, apply_event)
        (ap (λ (w : View). record w { turn = turn; latest_event_id = some e.id })
          (apply_body-retime e.body e.timestamp turn e.turn v))
]

apply_events-retime :
    (turn u : ℕ) (v : View) (es : List Event)
    → retime turn (apply_events u v es) ≡ apply_events turn (retime turn v) es
unfolding apply_events
apply_events-retime turn u v [] = refl
apply_events-retime turn u v (e ∷ es) =
    apply_events-retime turn u (apply_event u v e) es
    ∙ ap (λ w. apply_events turn w es) (apply_event-retime turn u v e)

-- A view that is built at one turn is, but for the turn, the view of any other.
pub build_view-retime :
    (turn u : ℕ) (es : List Event) → retime turn (build_view u es) ≡ build_view turn es
unfolding empty_view
build_view-retime turn u es =
    ap (retime turn) (build_view-apply_events u es)
    ∙ apply_events-retime turn u (empty_view u) es
    ∙ sym (build_view-apply_events turn es)

-- The id of the last event.
unfoldable pub last_from : Option String → List Event → Option String
last_from id [] = id
last_from id (e ∷ es) = last_from (some e.id) es

abbrev pub last_id : List Event → Option String
last_id es = last_from none es

apply_event-latest :
    (turn : ℕ) (v : View) (e : Event) → (apply_event turn v e).latest_event_id ≡ some e.id
unfolding apply_event checkpoint_view
apply_event-latest turn v e = elim (Option-cases (read_checkpoint e.body)) [
  | inr (p, here) ↦ rw (here, apply_event) refl
  | inl here ↦ rw (here, apply_event) refl
]

apply_events-latest :
    (turn : ℕ) (v : View) (es : List Event)
    → (apply_events turn v es).latest_event_id ≡ last_from v.latest_event_id es
unfolding apply_events last_from
apply_events-latest turn v [] = refl
apply_events-latest turn v (e ∷ es) =
    apply_events-latest turn (apply_event turn v e) es
    ∙ ap (λ id. last_from id es) (apply_event-latest turn v e)

-- The latest id of a view is that of the tape's last event.
pub build_view-latest :
    (turn : ℕ) (es : List Event) → (build_view turn es).latest_event_id ≡ last_id es
unfolding empty_view
build_view-latest turn es =
    ap (λ (v : View). v.latest_event_id) (build_view-apply_events turn es)
    ∙ apply_events-latest turn (empty_view turn) es
