-- ===== src/Tape/Trimmed.antt =====
-- The tools of a view's recent failures are trimmed (packages/brewva-runtime/src/tape/replay-engine.ts,
-- `parseFailureContext`, with the checkpoints of packages/brewva-runtime/src/tape/events.ts).
use pi_roaster.Base.{
  All-append, All-keep, ◌∙◌, or_else, ◌==◌, string_eq, ℕ, suc, ◌-◌, ◌≡◌, refl, sym, subst, String,
  Option, none, some, List, [], ◌∷◌, ◌++◌, All, leb, length, keep, inl, inr, Option-cases, if_cases,
  arith,
}
use pi_roaster.Base.Numeric.{JsNumber}
use pi_roaster.Tape.{
  Failure, Evidence, last_of, is_recent, prune_failures, RawResult, ResultVerdict, pass, fail,
  inconclusive, add_failure, parse_failure, normalize_turn, count_result, reduce_evidence,
  pass_anchor, restore_evidence,
}
use pi_roaster.Tape.View.{
  Event, EventBody, checkpoint, task_event, truth_event, anchor, tool_result, tool_marked,
  cost_updated, Checkpoint, budget_alerted, projection_refreshed, other, View, empty_view,
  checkpoint_view, read_checkpoint, apply_body, apply_event, apply_events, build_view,
}
use pi_roaster.Tape.Equivalence.{build_view-apply_events}
use pi_roaster.Tape.Bounds.{All-drop, mark_tool-evidence}
use pi_roaster.Base.Text.{normalize_optional, trim}
use pi_roaster.Base.Coerce.{IsTrimmed, trim-IsTrimmed, Holds}
use pi_roaster.Tape.Reader.{RawCheckpoint, coerce_checkpoint}
use pi_roaster.Tape.ReadBack.{HasTrimmedTool, coerce_checkpoint-trimmed}

-- Every checkpoint among events was read by the reader.
abbrev pub IsRead : EventBody → Type 0
IsRead (checkpoint q) = (r : RawCheckpoint) × q ≡ coerce_checkpoint r
IsRead _ = Unit

IsRead-trimmed :
    (b : EventBody) (p : Checkpoint)
    → IsRead b
    → read_checkpoint b ≡ some p
    → All HasTrimmedTool p.evidence.recent_failures
IsRead-trimmed (checkpoint q) p (r, e) h = coerce_checkpoint-trimmed r p (sym e ∙ h)
IsRead-trimmed (task_event r) p i h = absurd (ground (arith, h))
IsRead-trimmed (truth_event r) p i h = absurd (ground (arith, h))
IsRead-trimmed anchor p i h = absurd (ground (arith, h))
IsRead-trimmed (tool_result r) p i h = absurd (ground (arith, h))
IsRead-trimmed (tool_marked r) p i h = absurd (ground (arith, h))
IsRead-trimmed (cost_updated r) p i h = absurd (ground (arith, h))
IsRead-trimmed (budget_alerted r) p i h = absurd (ground (arith, h))
IsRead-trimmed (projection_refreshed r) p i h = absurd (ground (arith, h))
IsRead-trimmed other p i h = absurd (ground (arith, h))

abbrev pub EvidenceIsTrimmed : Evidence → Type 0
EvidenceIsTrimmed e = All HasTrimmedTool e.recent_failures

prune_failures-trimmed :
    (fs : List Failure) (epoch : ℕ)
    → All HasTrimmedTool fs
    → All HasTrimmedTool (prune_failures fs epoch)
unfolding prune_failures
prune_failures-trimmed fs epoch h =
    let kept = keep (is_recent epoch) fs in
    let trimmed = All-keep HasTrimmedTool (is_recent epoch) fs h in
    if_cases (All HasTrimmedTool) (leb (length kept) 48) {x = kept} {y = last_of 48 kept}
      (λ _. trimmed) (λ _. All-drop HasTrimmedTool (length kept - 48) kept trimmed)

unknown_tool-IsTrimmed : IsTrimmed "unknown_tool"
unfolding normalize_optional trim
unknown_tool-IsTrimmed = refl

named-IsTrimmed : (o : Option String) → IsTrimmed (or_else (normalize_optional o) "unknown_tool")
named-IsTrimmed o = elim (Option-cases (normalize_optional o)) [
  | inl missing ↦ rw missing unknown_tool-IsTrimmed
  | inr (tool, found) ↦ rw found (trim-IsTrimmed o tool found)
]

parse_failure-trimmed :
    (r : RawResult) (fallback timestamp epoch : ℕ)
    → Holds HasTrimmedTool (parse_failure r fallback timestamp epoch)
unfolding parse_failure
parse_failure-trimmed r fallback timestamp epoch = elim (Option-cases r.context) [
  | inl missing ↦ rw (missing, parse_failure) tt
  | inr (c, found) ↦
      rw (found, parse_failure)
        (if_cases (Holds HasTrimmedTool) (or_else c.output_text "" == "") (λ _. tt)
          (λ _. named-IsTrimmed r.tool))
]

add_failure-trimmed :
    (o : Option Failure) (e : Evidence)
    → Holds HasTrimmedTool o
    → EvidenceIsTrimmed e
    → EvidenceIsTrimmed (add_failure o e)
unfolding add_failure
add_failure-trimmed none e k h = h
add_failure-trimmed (some f) e k h =
    if_cases EvidenceIsTrimmed _ (λ _. h)
      (λ _.
        prune_failures-trimmed (e.recent_failures ++ f ∷ []) e.anchor_epoch
          (All-append HasTrimmedTool e.recent_failures (f ∷ []) h (k, tt)))

count_result-trimmed :
    (r : RawResult) (verdict : ResultVerdict) (timestamp turn : ℕ) (e : Evidence)
    → EvidenceIsTrimmed e
    → EvidenceIsTrimmed (count_result r verdict timestamp turn e)
unfolding count_result
count_result-trimmed r fail timestamp turn e h =
    add_failure-trimmed (parse_failure r (normalize_turn r.turn turn) timestamp e.anchor_epoch) _
      (parse_failure-trimmed r _ timestamp e.anchor_epoch) h
count_result-trimmed r pass timestamp turn e h = h
count_result-trimmed r inconclusive timestamp turn e h = h

reduce_evidence-trimmed :
    (e : Evidence) (r : RawResult) (timestamp turn : ℕ)
    → EvidenceIsTrimmed e
    → EvidenceIsTrimmed (reduce_evidence e r timestamp turn)
unfolding reduce_evidence
reduce_evidence-trimmed e r timestamp turn h = elim (Option-cases r.verdict) [
  | inl missing ↦ rw (missing, reduce_evidence) h
  | inr (verdict, found) ↦
      rw (found, reduce_evidence) (count_result-trimmed r verdict timestamp turn e h)
]

apply_body-trimmed :
    (b : EventBody) (timestamp : ℕ) (at : Option JsNumber) (v : View)
    → EvidenceIsTrimmed v.evidence
    → EvidenceIsTrimmed (apply_body b timestamp at v).evidence
unfolding apply_body pass_anchor
apply_body-trimmed anchor timestamp at v h =
    prune_failures-trimmed v.evidence.recent_failures (suc v.evidence.anchor_epoch) h
apply_body-trimmed (tool_result r) timestamp at v h =
    reduce_evidence-trimmed v.evidence r timestamp _ h
apply_body-trimmed (tool_marked tool) timestamp at v h =
    subst EvidenceIsTrimmed (sym (mark_tool-evidence _ _ v)) h
apply_body-trimmed (checkpoint p) timestamp at v h = h
apply_body-trimmed (task_event r) timestamp at v h = h
apply_body-trimmed (truth_event r) timestamp at v h = h
apply_body-trimmed (cost_updated r) timestamp at v h = h
apply_body-trimmed (budget_alerted r) timestamp at v h = h
apply_body-trimmed (projection_refreshed r) timestamp at v h = h
apply_body-trimmed other timestamp at v h = h

apply_event-trimmed :
    (turn : ℕ) (v : View) (e : Event)
    → IsRead e.body
    → EvidenceIsTrimmed v.evidence
    → EvidenceIsTrimmed (apply_event turn v e).evidence
unfolding apply_event checkpoint_view restore_evidence
apply_event-trimmed turn v e read h = elim (Option-cases (read_checkpoint e.body)) [
  | inr (p, here) ↦
      rw (here, apply_event)
        (prune_failures-trimmed p.evidence.recent_failures p.evidence.anchor_epoch
          (IsRead-trimmed e.body p read here))
  | inl here ↦ rw (here, apply_event) (apply_body-trimmed e.body e.timestamp e.turn v h)
]

apply_events-trimmed :
    (turn : ℕ) (v : View) (es : List Event)
    → All (λ e. IsRead e.body) es
    → EvidenceIsTrimmed v.evidence
    → EvidenceIsTrimmed (apply_events turn v es).evidence
unfolding apply_events
apply_events-trimmed turn v [] read h = h
apply_events-trimmed turn v (e ∷ es) read h =
    apply_events-trimmed turn (apply_event turn v e) es read.1
      (apply_event-trimmed turn v e read.0 h)

-- The failures of a view have trimmed tools, where its checkpoints were read.
pub build_view-trimmed :
    (turn : ℕ) (es : List Event)
    → All (λ e. IsRead e.body) es
    → EvidenceIsTrimmed (build_view turn es).evidence
unfolding empty_view
build_view-trimmed turn es read =
    subst (λ (v : View). EvidenceIsTrimmed v.evidence) (sym (build_view-apply_events turn es))
      (apply_events-trimmed turn (empty_view turn) es read tt)
