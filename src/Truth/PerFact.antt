-- ===== src/Truth/PerFact.antt =====
-- The history of one fact, apart from all others (packages/brewva-runtime/src/truth/ledger.ts).
use pi_roaster.Base.{
  ℕ, ◌≡◌, refl, ap, ◌∙◌, String, Option, none, some, List, [], ◌∷◌, ◌++◌, inl, inr, Option-cases,
  ◌==◌, string_eq, eq_iff, if◌then◌else◌, arith,
}
use mathlib.Core.Option
use pi_roaster.Truth.{
  Fact, TruthState, Payload, fact_upserted, fact_resolved, TruthEvent, empty_state, find_fact,
  merge_fact, replace_fact, upsert_into, resolve_fact, resolve_all, reduce_facts,
  reduce_truth_state, coerce_payload, apply_payload, fold_from, fold_truth_events,
}

-- What one payload makes of the fact with an id, if there is one.
unfoldable pub history_step : String → Payload → ℕ → Option Fact → Option Fact
history_step id (fact_upserted f) timestamp none = if f.id == id then some f else none
history_step id (fact_upserted f) timestamp (some old) =
    some (if f.id == id then merge_fact old f else old)
history_step id (fact_resolved k at) timestamp none = none
history_step id (fact_resolved k at) timestamp (some old) =
    some (if k == id then resolve_fact at timestamp old else old)

abbrev pub history_payload : String → Option Payload → ℕ → Option Fact → Option Fact
history_payload id none timestamp o = o
history_payload id (some p) timestamp o = history_step id p timestamp o

-- The fact with an id, folded over the events with no list of facts.
unfoldable pub history_from : String → Option Fact → List TruthEvent → Option Fact
history_from id o [] = o
history_from id o (e ∷ es) =
    history_from id (history_payload id (coerce_payload e.payload) e.timestamp o) es

unfoldable pub history : String → List TruthEvent → Option Fact
unfolding history_from
history id es = history_from id none es

find_fact-append :
    (id : String) (fs : List Fact) (f : Fact)
    → find_fact id fs ≡ none
    → find_fact id (fs ++ f ∷ []) ≡ (if f.id == id then some f else none)
unfolding find_fact
find_fact-append id [] f e = refl
find_fact-append id (g ∷ fs) f e = ground (arith, find_fact-append id fs f)

find_fact-append_other :
    (id : String) (fs : List Fact) (f old : Fact)
    → find_fact id fs ≡ some old
    → find_fact id (fs ++ f ∷ []) ≡ some old
unfolding find_fact
find_fact-append_other id [] f old e = absurd (ground (arith, e))
find_fact-append_other id (g ∷ fs) f old e = ground (arith, find_fact-append_other id fs f old)

find_fact-replace :
    (id : String) (new : Fact) (fs : List Fact)
    → find_fact id (replace_fact new fs)
      ≡ Option.map (λ (f : Fact). if new.id == id then new else f) (find_fact id fs)
unfolding find_fact replace_fact
find_fact-replace id new [] = refl
find_fact-replace id new (f ∷ fs) =
    ground
      (arith, find_fact-replace id new fs, eq_iff f.id new.id, eq_iff new.id id, eq_iff f.id id)

find_fact-resolve_all :
    (id k : String) (at : Option ℕ) (timestamp : ℕ) (fs : List Fact)
    → find_fact id (resolve_all k at timestamp fs)
      ≡ Option.map
          (λ (f : Fact). if k == id then resolve_fact at timestamp f else f)
          (find_fact id fs)
unfolding find_fact resolve_all resolve_fact
find_fact-resolve_all id k at timestamp [] = refl
find_fact-resolve_all id k at timestamp (f ∷ fs) =
    ground (
      arith,
      find_fact-resolve_all id k at timestamp fs,
      eq_iff f.id k,
      eq_iff k id,
      eq_iff f.id id,
    )

pub id-find_fact : (id : String) (fs : List Fact) (f : Fact) → find_fact id fs ≡ some f → f.id ≡ id
unfolding find_fact
id-find_fact id [] f e = absurd (ground (arith, e))
id-find_fact id (g ∷ fs) f e = ground (arith, id-find_fact id fs f, eq_iff g.id id)

merge_fact-id : (old new : Fact) → (merge_fact old new).id ≡ old.id
unfolding merge_fact
merge_fact-id old new = refl

find_fact-upsert :
    (id : String) (f : Fact) (timestamp : ℕ) (fs : List Fact) (o : Option Fact)
    → find_fact f.id fs ≡ o
    → find_fact id (upsert_into o f fs)
      ≡ history_step id (fact_upserted f) timestamp (find_fact id fs)
unfolding upsert_into history_step
find_fact-upsert id f timestamp fs none e = elim (Option-cases (find_fact id fs)) [
  | inl missing ↦ rw missing (find_fact-append id fs f missing)
  | inr (old, found) ↦ rw found (
      find_fact-append_other id fs f old found
      ∙ ground (
        arith,
        e,
        found,
        eq_iff f.id id,
        λ (h : f.id ≡ id). ap (λ (k : String). find_fact k fs) h,
      ))
]
find_fact-upsert id f timestamp fs (some old) e =
    find_fact-replace id (merge_fact old f) fs ∙ elim (Option-cases (find_fact id fs)) [
      | inl missing ↦ rw missing (
          ground (
            arith,
            e,
            missing,
            eq_iff f.id id,
            λ (h : f.id ≡ id). ap (λ (k : String). find_fact k fs) h,
          ))
      | inr (g, found) ↦ rw found (
          ground (
            arith,
            e,
            found,
            eq_iff f.id id,
            id-find_fact f.id fs old e,
            merge_fact-id old f,
            λ (h : f.id ≡ id). ap (λ (k : String). find_fact k fs) h,
          ))
    ]

history_step-resolved :
    (id k : String) (at : Option ℕ) (timestamp : ℕ) (o : Option Fact)
    → Option.map (λ (f : Fact). if k == id then resolve_fact at timestamp f else f) o
      ≡ history_step id (fact_resolved k at) timestamp o
unfolding history_step
history_step-resolved id k at timestamp none = refl
history_step-resolved id k at timestamp (some old) = refl

find_fact-reduce :
    (id : String) (p : Payload) (timestamp : ℕ) (fs : List Fact)
    → find_fact id (reduce_facts fs p timestamp) ≡ history_step id p timestamp (find_fact id fs)
unfolding reduce_facts
find_fact-reduce id (fact_upserted f) timestamp fs =
    find_fact-upsert id f timestamp fs (find_fact f.id fs) refl
find_fact-reduce id (fact_resolved k at) timestamp fs =
    find_fact-resolve_all id k at timestamp fs
    ∙ history_step-resolved id k at timestamp (find_fact id fs)

find_fact-apply_payload :
    (id : String) (o : Option Payload) (timestamp : ℕ) (s : TruthState)
    → find_fact id (apply_payload o timestamp s).facts
      ≡ history_payload id o timestamp (find_fact id s.facts)
unfolding reduce_truth_state
find_fact-apply_payload id none timestamp s = refl
find_fact-apply_payload id (some p) timestamp s = find_fact-reduce id p timestamp s.facts

pub find_fact-fold_from :
    (id : String) (s : TruthState) (es : List TruthEvent)
    → find_fact id (fold_from s es).facts ≡ history_from id (find_fact id s.facts) es
unfolding fold_from history_from
find_fact-fold_from id s [] = refl
find_fact-fold_from id s (e ∷ es) =
    find_fact-fold_from id (apply_payload (coerce_payload e.payload) e.timestamp s) es
    ∙ ap (λ o. history_from id o es)
        (find_fact-apply_payload id (coerce_payload e.payload) e.timestamp s)

-- The fact with an id in the fold of any events is the fold of that fact's own history: what
-- happens to other facts, and where it stands in the list, does not matter.
pub find_fact-fold :
    (id : String) (es : List TruthEvent) → find_fact id (fold_truth_events es).facts ≡ history id es
unfolding fold_truth_events history
find_fact-fold id es = find_fact-fold_from id empty_state es ∙ unfold find_fact in refl
