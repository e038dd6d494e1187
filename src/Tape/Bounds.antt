-- ===== src/Tape/Bounds.antt =====
-- The recent failures of a view are few and recent
-- (packages/brewva-runtime/src/tape/replay-engine.ts, `pruneToolFailures`).
use pi_roaster.Base.{
  ℕ, zero, suc, ◌-◌, ◌≤◌, ◌≡◌, refl, sym, ap, subst, Bool, true, String, Option, none, some, List,
  [], ◌∷◌, ◌++◌, All, leb, length, keep, inl, inr, Option-cases, if◌then◌else◌, if_cases, arith,
}
use pi_roaster.Base.Numeric.{JsNumber}
use pi_roaster.Tape.{
  Failure, Evidence, drop, last_of, is_recent, prune_failures, RawResult, ResultVerdict, pass, fail,
  inconclusive, add_failure, parse_failure, normalize_turn, count_class, class_of, count_result,
  reduce_evidence, pass_anchor, restore_evidence,
}
use pi_roaster.Tape.View.{
  Event, EventBody, checkpoint, task_event, truth_event, anchor, tool_result, tool_marked,
  cost_updated, budget_alerted, projection_refreshed, other, View, empty_view, checkpoint_view,
  read_checkpoint, mark_tool, apply_body, apply_event, apply_events, build_view,
}
use pi_roaster.Tape.Equivalence.{build_view-apply_events}

-- At most 48 failures are kept, each from within three anchors.
pub record IsBounded (fs : List Failure) (epoch : ℕ) : Type 0 where
  pub are_few : length fs ≤ 48
  pub are_recent : All (λ f. is_recent epoch f ≡ true) fs

length-drop {ℓ} : {A : Type ℓ} (n : ℕ) (xs : List A) → length (drop n xs) ≡ length xs - n
unfolding drop
length-drop zero xs = omega arith
length-drop (suc n) [] = omega arith
length-drop (suc n) (x ∷ xs) = omega (arith, length-drop n xs)

pub All-drop {ℓ κ} :
    {A : Type ℓ} (P : A → Type κ) (n : ℕ) (xs : List A) → All P xs → All P (drop n xs)
unfolding drop
All-drop P zero xs h = h
All-drop P (suc n) [] h = h
All-drop P (suc n) (x ∷ xs) h = All-drop P n xs h.1

keep-All {ℓ} : {A : Type ℓ} (p : A → Bool) (xs : List A) → All (λ x. p x ≡ true) xs → keep p xs ≡ xs
unfolding keep
keep-All p [] h = refl
keep-All p (x ∷ xs) h = rw h.0 (ap (λ l. x ∷ l) (keep-All p xs h.1))

keep-holds {ℓ} : {A : Type ℓ} (p : A → Bool) (xs : List A) → All (λ x. p x ≡ true) (keep p xs)
unfolding keep
keep-holds p [] = tt
keep-holds p (x ∷ xs) =
    if_cases (All (λ y. p y ≡ true)) (p x) (λ e. (e, keep-holds p xs)) (λ _. keep-holds p xs)

pub prune_failures-IsBounded :
    (fs : List Failure) (epoch : ℕ) → IsBounded (prune_failures fs epoch) epoch
unfolding prune_failures
prune_failures-IsBounded fs epoch =
    let kept = keep (is_recent epoch) fs in
    let recent = keep-holds (is_recent epoch) fs in
    if_cases (λ q. IsBounded q epoch) (leb (length kept) 48) {x = kept} {y = last_of 48 kept}
      (λ few. record { are_few = ground arith; are_recent = recent })
      (λ many. record {
        are_few = omega (arith, length-drop (length kept - 48) kept);
        are_recent = All-drop _ (length kept - 48) kept recent;
      })

take_few :
    (fs : List Failure) → length fs ≤ 48 → (if leb (length fs) 48 then fs else last_of 48 fs) ≡ fs
take_few fs h = ground arith

pub prune_failures-bounded :
    (fs : List Failure) (epoch : ℕ) → IsBounded fs epoch → prune_failures fs epoch ≡ fs
unfolding prune_failures
prune_failures-bounded fs epoch h =
    rw (keep-All (is_recent epoch) fs h.are_recent) (take_few fs h.are_few)

abbrev pub EvidenceIsBounded : Evidence → Type 0
EvidenceIsBounded e = IsBounded e.recent_failures e.anchor_epoch

add_failure-bounded :
    (o : Option Failure) (e : Evidence) → EvidenceIsBounded e → EvidenceIsBounded (add_failure o e)
unfolding add_failure
add_failure-bounded none e h = h
add_failure-bounded (some f) e h =
    if_cases EvidenceIsBounded _ (λ _. h)
      (λ _. prune_failures-IsBounded (e.recent_failures ++ f ∷ []) e.anchor_epoch)

count_result-bounded :
    (r : RawResult) (verdict : ResultVerdict) (timestamp turn : ℕ) (e : Evidence)
    → EvidenceIsBounded e
    → EvidenceIsBounded (count_result r verdict timestamp turn e)
unfolding count_result
count_result-bounded r fail timestamp turn e h =
    add_failure-bounded (parse_failure r (normalize_turn r.turn turn) timestamp e.anchor_epoch)
      (record e {
        total_records = suc e.total_records;
        failure_records = suc e.failure_records;
        class_counts = count_class (class_of r) e.class_counts;
      })
      h
count_result-bounded r pass timestamp turn e h = h
count_result-bounded r inconclusive timestamp turn e h = h

reduce_evidence-bounded :
    (e : Evidence) (r : RawResult) (timestamp turn : ℕ)
    → EvidenceIsBounded e
    → EvidenceIsBounded (reduce_evidence e r timestamp turn)
unfolding reduce_evidence
reduce_evidence-bounded e r timestamp turn h = elim (Option-cases r.verdict) [
  | inl missing ↦ rw (missing, reduce_evidence) h
  | inr (verdict, found) ↦
      rw (found, reduce_evidence) (count_result-bounded r verdict timestamp turn e h)
]

pub mark_tool-evidence :
    (tool : Option String) (turn : ℕ) (v : View) → (mark_tool tool turn v).evidence ≡ v.evidence
mark_tool-evidence none turn v = refl
mark_tool-evidence (some tool) turn v = refl

apply_body-bounded :
    (b : EventBody) (timestamp : ℕ) (at : Option JsNumber) (v : View)
    → EvidenceIsBounded v.evidence
    → EvidenceIsBounded (apply_body b timestamp at v).evidence
unfolding apply_body pass_anchor
apply_body-bounded anchor timestamp at v h =
    prune_failures-IsBounded v.evidence.recent_failures (suc v.evidence.anchor_epoch)
apply_body-bounded (tool_result r) timestamp at v h =
    reduce_evidence-bounded v.evidence r timestamp _ h
apply_body-bounded (tool_marked tool) timestamp at v h =
    subst EvidenceIsBounded (sym (mark_tool-evidence _ _ v)) h
apply_body-bounded (checkpoint p) timestamp at v h = h
apply_body-bounded (task_event r) timestamp at v h = h
apply_body-bounded (truth_event r) timestamp at v h = h
apply_body-bounded (cost_updated r) timestamp at v h = h
apply_body-bounded (budget_alerted r) timestamp at v h = h
apply_body-bounded (projection_refreshed r) timestamp at v h = h
apply_body-bounded other timestamp at v h = h

apply_event-bounded :
    (turn : ℕ) (v : View) (e : Event)
    → EvidenceIsBounded v.evidence
    → EvidenceIsBounded (apply_event turn v e).evidence
unfolding apply_event checkpoint_view restore_evidence
apply_event-bounded turn v e h = elim (Option-cases (read_checkpoint e.body)) [
  | inr (p, here) ↦
      rw (here, apply_event)
        (prune_failures-IsBounded p.evidence.recent_failures p.evidence.anchor_epoch)
  | inl here ↦ rw (here, apply_event) (apply_body-bounded e.body e.timestamp e.turn v h)
]

pub apply_events-bounded :
    (turn : ℕ) (v : View) (es : List Event)
    → EvidenceIsBounded v.evidence
    → EvidenceIsBounded (apply_events turn v es).evidence
unfolding apply_events
apply_events-bounded turn v [] h = h
apply_events-bounded turn v (e ∷ es) h =
    apply_events-bounded turn (apply_event turn v e) es (apply_event-bounded turn v e h)

-- Whatever a tape holds, the view that is built of it keeps at most 48 failures, each recorded fewer
-- than three anchors before the view's anchor epoch.
pub build_view-IsBounded :
    (turn : ℕ) (es : List Event)
    → IsBounded
        (build_view turn es).evidence.recent_failures
        (build_view turn es).evidence.anchor_epoch
unfolding empty_view
build_view-IsBounded turn es =
    subst (λ (v : View). EvidenceIsBounded v.evidence) (sym (build_view-apply_events turn es))
      (apply_events-bounded turn (empty_view turn) es
        (record { are_few = omega arith; are_recent = tt }))
