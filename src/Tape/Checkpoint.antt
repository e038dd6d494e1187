-- ===== src/Tape/Checkpoint.antt =====
-- A checkpoint of the tape stands for the events before it
-- (packages/brewva-runtime/src/tape/replay-engine.ts, with what `maybeRecordTapeCheckpoint` of
-- packages/brewva-runtime/src/services/tape.ts saves).
use pi_roaster.Base.{
  All, subst, or_else, ℕ, ◌≡◌, refl, sym, ◌∙◌, ap, String, Option, none, some, List, [], ◌∷◌, ◌++◌,
  Bool, inl, inr, Option-cases,
}
use pi_roaster.Base.Dict.{Dict, map_values}
use pi_roaster.Base.Numeric.{JsNumber}
use pi_roaster.Base.Text.{normalize_optional}
use pi_roaster.Cost.Summary.{
  SkillSummary, CostSummary, build_cost_summary, restore_cost_state, restore_skill, restore_skills,
  skill_summary, rounded_tool,
}
use pi_roaster.Tape.{
  Evidence, Projection, save_evidence, reduce_evidence, reduce_projection, pass_anchor,
  normalize_turn, restore_evidence,
}
use pi_roaster.Tape.View.{
  Event, EventBody, Checkpoint, checkpoint, task_event, truth_event, anchor, tool_result,
  tool_marked, cost_updated, budget_alerted, projection_refreshed, other, View, empty_view,
  checkpoint_view, read_checkpoint, mark_tool, apply_body, apply_event, apply_events, build_view,
}
use pi_roaster.Tape.Equivalence.{
  apply_event-checkpoint, build_view-apply_events, apply_events-append,
}
use pi_roaster.Base.Coerce.{Holds}
use pi_roaster.Tape.Reader.{
  RawCheckpoint, coerce_evidence, coerce_projection, coerce_checkpoint, raw_evidence,
  raw_projection,
}
use pi_roaster.Tape.ReadBack.{
  coerce_evidence-written, coerce_projection-written, IsReadOf, coerce_checkpoint-IsReadOf,
}
use pi_roaster.Tape.Trimmed.{EvidenceIsTrimmed, IsRead, build_view-trimmed}
use pi_roaster.Tape.Bounds.{prune_failures-bounded, EvidenceIsBounded, build_view-IsBounded}

-- What `maybeRecordTapeCheckpoint` writes for the evidence and for the projection of a view.
pub record Saves (r : RawCheckpoint) (v : View) : Type 0 where
  pub evidence_saved : r.evidence ≡ raw_evidence v.evidence
  pub projection_saved : r.projection ≡ raw_projection v.projection

-- What a view holds of the results of tools and of the projection.
pub record Ledgers : Type 0 where
  pub evidence : Evidence
  pub projection : Projection

abbrev pub ledgers : View → Ledgers
ledgers v = record { evidence = v.evidence; projection = v.projection }

mark_tool-ledgers :
    (tool : Option String) (turn : ℕ) (v : View) → ledgers (mark_tool tool turn v) ≡ ledgers v
mark_tool-ledgers none turn v = refl
mark_tool-ledgers (some tool) turn v = refl

-- No task, fact or cost is read by what an event does to the ledgers.
apply_body-ledgers :
    (b : EventBody) (timestamp : ℕ) (at : Option JsNumber) (v w : View)
    → ledgers v ≡ ledgers w
    → ledgers (apply_body b timestamp at v) ≡ ledgers (apply_body b timestamp at w)
unfolding apply_body
apply_body-ledgers (checkpoint p) timestamp at v w h = h
apply_body-ledgers (task_event r) timestamp at v w h = h
apply_body-ledgers (truth_event r) timestamp at v w h = h
apply_body-ledgers anchor timestamp at v w h =
    ap (λ (l : Ledgers). record l { evidence = pass_anchor l.evidence }) h
apply_body-ledgers (tool_result r) timestamp at v w h =
    ap
      (λ (l : Ledgers). record l {
        evidence = reduce_evidence l.evidence r timestamp (normalize_turn at 0);
      })
      h
apply_body-ledgers (tool_marked tool) timestamp at v w h =
    mark_tool-ledgers (normalize_optional tool) (normalize_turn at 0) v
    ∙ h
    ∙ sym (mark_tool-ledgers (normalize_optional tool) (normalize_turn at 0) w)
apply_body-ledgers (cost_updated r) timestamp at v w h = h
apply_body-ledgers (budget_alerted r) timestamp at v w h = h
apply_body-ledgers (projection_refreshed r) timestamp at v w h =
    ap (λ (l : Ledgers). record l { projection = reduce_projection l.projection r timestamp }) h
apply_body-ledgers other timestamp at v w h = h

apply_event-ledgers :
    (turn : ℕ) (v w : View) (e : Event)
    → ledgers v ≡ ledgers w
    → ledgers (apply_event turn v e) ≡ ledgers (apply_event turn w e)
unfolding apply_event
apply_event-ledgers turn v w e h = elim (Option-cases (read_checkpoint e.body)) [
  | inr (p, here) ↦ rw (here, apply_event) refl
  | inl here ↦ rw (here, apply_event) (apply_body-ledgers e.body e.timestamp e.turn v w h)
]

apply_events-ledgers :
    (turn : ℕ) (v w : View) (es : List Event)
    → ledgers v ≡ ledgers w
    → ledgers (apply_events turn v es) ≡ ledgers (apply_events turn w es)
unfolding apply_events
apply_events-ledgers turn v w [] h = h
apply_events-ledgers turn v w (e ∷ es) h =
    apply_events-ledgers turn (apply_event turn v e) (apply_event turn w e) es
      (apply_event-ledgers turn v w e h)

same_some {ℓ} : {A : Type ℓ} (a b : A) → some a ≡ some b → a ≡ b
same_some a b e = ap (λ o. or_else o a) e

-- A checkpoint that was read restores the ledgers of the view that it saves.
saved-ledgers :
    (turn : ℕ) (id : String) (r : RawCheckpoint) (p : Checkpoint) (v : View)
    → Saves r v
    → coerce_checkpoint r ≡ some p
    → EvidenceIsTrimmed v.evidence
    → EvidenceIsBounded v.evidence
    → ledgers (checkpoint_view turn id p) ≡ ledgers v
unfolding checkpoint_view restore_evidence
saved-ledgers turn id r p v saves read trimmed bounded =
    let told = subst (Holds (IsReadOf r)) read (coerce_checkpoint-IsReadOf r) in
    let evidence = same_some _ _ (
      sym told.0
      ∙ ap coerce_evidence saves.evidence_saved
      ∙ coerce_evidence-written v.evidence trimmed) in
    let projection = same_some _ _ (
      sym told.1
      ∙ ap coerce_projection saves.projection_saved
      ∙ coerce_projection-written v.projection) in
    ap (λ c. record { evidence = restore_evidence c; projection = p.projection }) evidence
    ∙ ap (λ q. record { evidence = restore_evidence (save_evidence v.evidence); projection = q })
        projection
    ∙ ap
        (λ fs. record {
          evidence = record v.evidence { recent_failures = fs };
          projection = v.projection;
        })
        (prune_failures-bounded v.evidence.recent_failures v.evidence.anchor_epoch bounded)

-- A checkpoint's event leaves the ledgers of the view that it saves, where it can be read or not.
checkpoint-ledgers :
    (turn : ℕ) (v : View) (e : Event) (r : RawCheckpoint)
    → e.body ≡ checkpoint (coerce_checkpoint r)
    → Saves r v
    → EvidenceIsTrimmed v.evidence
    → EvidenceIsBounded v.evidence
    → ledgers (apply_event turn v e) ≡ ledgers v
unfolding apply_event apply_body
checkpoint-ledgers turn v e r body saves trimmed bounded =
    elim (Option-cases (coerce_checkpoint r)) [
      | inl refused ↦
          rw (ap read_checkpoint (body ∙ ap checkpoint refused), apply_event)
            (ap (λ b. ledgers (apply_body b e.timestamp e.turn v)) (body ∙ ap checkpoint refused))
      | inr (p, read) ↦
          ap ledgers
            (apply_event-checkpoint turn v e p (ap read_checkpoint (body ∙ ap checkpoint read)))
          ∙ saved-ledgers turn e.id r p v saves read trimmed bounded
    ]

-- A checkpoint that saves the evidence and the projection of the view of the events before it, with
-- any tasks, facts and costs, may stand in the tape or not, if every checkpoint among those events was
-- given by the reader of checkpoints as this one is: whatever events come after it, the evidence and
-- the projection of the view that is built are the same.
pub build_view-checkpoint :
    (turn : ℕ) (es fs : List Event) (e : Event) (r : RawCheckpoint)
    → All (λ q. IsRead q.body) es
    → e.body ≡ checkpoint (coerce_checkpoint r)
    → Saves r (build_view turn es)
    → ledgers (build_view turn (es ++ e ∷ fs)) ≡ ledgers (build_view turn (es ++ fs))
unfolding apply_events
build_view-checkpoint turn es fs e r read body saves =
    let start = empty_view turn in
    let v = build_view turn es in
    ap ledgers
      (build_view-apply_events turn (es ++ e ∷ fs) ∙ apply_events-append turn start es (e ∷ fs))
    ∙ ap (λ q. ledgers (apply_events turn (apply_event turn q e) fs))
        (sym (build_view-apply_events turn es))
    ∙ apply_events-ledgers turn (apply_event turn v e) v fs (
        checkpoint-ledgers turn v e r body saves (build_view-trimmed turn es read)
          (build_view-IsBounded turn es))
    ∙ ap (λ q. ledgers (apply_events turn q fs)) (build_view-apply_events turn es)
    ∙ ap ledgers
        (sym (build_view-apply_events turn (es ++ fs) ∙ apply_events-append turn start es fs))

restored-skills :
    (turns : Dict ℕ) (m : Dict SkillSummary) → map_values skill_summary (restore_skills turns m) ≡ m
unfolding map_values restore_skills restore_skill
restored-skills turns [] = refl
restored-skills turns ((name, k) ∷ m) = ap (λ l. (name, k) ∷ l) (restored-skills turns m)

-- The summary of the costs that are restored from a summary is that summary, but for the shares of
-- the tools, which are rounded once more.
pub restored-summary :
    (cost : CostSummary) (turns : Dict ℕ) (threshold_alerted cap_alerted : Option Bool)
    → build_cost_summary none (restore_cost_state cost turns threshold_alerted cap_alerted)
      ≡ record cost { tools = map_values rounded_tool cost.tools }
unfolding build_cost_summary restore_cost_state
restored-summary cost turns threshold_alerted cap_alerted =
    ap (λ skills. record cost { skills = skills; tools = map_values rounded_tool cost.tools })
      (restored-skills turns cost.skills)
