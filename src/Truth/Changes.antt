-- ===== src/Truth/Changes.antt =====
-- What a call of the truth service does to the facts (packages/brewva-runtime/src/services/truth.ts).
use mathlib.Core.Option
use pi_roaster.Base.{
  ℕ, ◌≡◌, refl, ap, ◌∙◌, max, String, Option, none, some, List, [], ◌∷◌, ◌++◌, ◌==◌, string_eq,
  eq_iff, if◌then◌else◌, not, ◌&&◌, arith,
}
use pi_roaster.Base.Text.{normalize_optional}
use pi_roaster.Base.Coerce.{◌>>=◌, normalize_string_array, IsTrimmed, trim-IsTrimmed}
use pi_roaster.Truth.{
  is_resolved, Fact, resolved, fact_upserted, fact_resolved, TruthEvent, TruthState, RawPayload,
  raw_upserted, raw_resolved, find_fact, fold_from, fold_truth_events, coerce_payload,
  coerce_truth_fact, resolve_fact, empty_state, apply_payload,
}
use pi_roaster.Truth.Service.{
  UpsertInput, stored, record_event, to_raw, make_fact, upsert_found, upsert_checked,
  upsert_truth_fact, resolve_checked, resolve_truth_fact,
}
use pi_roaster.Truth.PerFact.{history_step, history_payload, history_from, find_fact-fold_from}

-- The fact with an id after the events of a tape.
abbrev pub fact_on : String → List TruthEvent → Option Fact
fact_on id tape = find_fact id (fold_truth_events tape).facts

fold_from-append :
    (s : TruthState) (tape : List TruthEvent) (e : TruthEvent)
    → fold_from s (tape ++ e ∷ []) ≡ fold_from (fold_from s tape) (e ∷ [])
unfolding fold_from
fold_from-append s [] e = refl
fold_from-append s (x ∷ tape) e =
    fold_from-append (apply_payload (coerce_payload x.payload) x.timestamp s) tape e

-- One more event takes one step in the history of every fact.
fact_on-record_event :
    (id : String) (payload : RawPayload) (recorded : ℕ) (tape : List TruthEvent)
    → fact_on id (record_event payload recorded tape)
      ≡ history_payload id (coerce_payload payload) recorded (fact_on id tape)
unfolding fold_truth_events history_from
fact_on-record_event id payload recorded tape =
    ap (λ (s : TruthState). find_fact id s.facts)
      (fold_from-append empty_state tape (record { payload = payload; timestamp = recorded }))
    ∙ find_fact-fold_from id (fold_from empty_state tape)
        ((record { payload = payload; timestamp = recorded }) ∷ [])

-- The fact's texts are trimmed, so that its JSON is read back as it is.
pub record IsReadable (f : Fact) : Type 0 where
  pub id_trimmed : IsTrimmed f.id
  pub kind_trimmed : IsTrimmed f.kind
  pub summary_trimmed : IsTrimmed f.summary
  pub evidence_trimmed : normalize_string_array f.evidence_ids ≡ f.evidence_ids

-- A fact with trimmed texts is read back from its JSON as it was written.
pub coerce-to_raw :
    (f : Fact) → IsReadable f → coerce_payload (raw_upserted (to_raw f)) ≡ some (fact_upserted f)
unfolding coerce_payload
coerce-to_raw f h =
    unfold coerce_truth_fact in
    rw (h.id_trimmed, ◌>>=◌)
      (rw (h.kind_trimmed, ◌>>=◌) (rw (h.summary_trimmed, ◌>>=◌) (rw h.evidence_trimmed)))

resolved_history :
    (id k : String) (now recorded : ℕ) (o : Option Fact)
    → history_step k (fact_resolved id (some now)) recorded o
      ≡ Option.map
          (λ (f : Fact).
            if id == k && not (is_resolved f.status)
            then record f {
              status = resolved;
              resolved_at = some now;
              last_seen_at = max f.last_seen_at recorded;
            }
            else f)
          o
unfolding history_step resolve_fact
resolved_history id k now recorded none = refl
resolved_history id k now recorded (some f) = ground arith

-- `resolveTruthFact` with an id that is not blank resolves the fact of that id at the time that the
-- service read: a fact that is resolved stays as it is, and so does every other fact.
pub resolve_resolves :
    (raw : Option String) (id k : String) (now recorded : ℕ) (tape : List TruthEvent)
    → normalize_optional raw ≡ some id
    → fact_on k (resolve_truth_fact raw now recorded tape).0
      ≡ Option.map
          (λ (f : Fact).
            if id == k && not (is_resolved f.status)
            then record f {
              status = resolved;
              resolved_at = some now;
              last_seen_at = max f.last_seen_at recorded;
            }
            else f)
          (fact_on k tape)
unfolding resolve_truth_fact history_step coerce_payload
resolve_resolves raw id k now recorded tape e =
    rw (e, resolve_checked)
      (fact_on-record_event k (raw_resolved (some id) (some now)) recorded tape
        ∙ rw (trim-IsTrimmed raw id e, ◌>>=◌) (resolved_history id k now recorded (fact_on k tape)))

checked_recorded :
    (id kind summary : Option String) (input : UpsertInput) (now recorded : ℕ)
    (tape : List TruthEvent) (f : Fact)
    → (upsert_checked id kind summary input now recorded tape).1 ≡ stored f
    → ((upsert_checked id kind summary input now recorded tape).0
        ≡ record_event (raw_upserted (to_raw f)) recorded tape)
      × (id ≡ some f.id)
      × (kind ≡ some f.kind)
      × (summary ≡ some f.summary)
unfolding upsert_checked upsert_found make_fact
checked_recorded none kind summary input now recorded tape f e = absurd (ground (arith, e))
checked_recorded (some id) none summary input now recorded tape f e = absurd (ground (arith, e))
checked_recorded (some id) (some kind) none input now recorded tape f e = absurd (ground (arith, e))
checked_recorded (some id) (some kind) (some summary) input now recorded tape f e =
    let made : make_fact id kind summary input (fact_on id tape) now ≡ f = ground (arith, e) in
    (
      ap (λ (g : Fact). record_event (raw_upserted (to_raw g)) recorded tape) made,
      ap (λ (g : Fact). some g.id) made,
      ap (λ (g : Fact). some g.kind) made,
      ap (λ (g : Fact). some g.summary) made,
    )

-- A fact that the service stores is read back from its event, where its evidence ids are trimmed.
upsert_recorded :
    (input : UpsertInput) (now recorded : ℕ) (tape : List TruthEvent) (f : Fact) (k : String)
    → (upsert_truth_fact input now recorded tape).1 ≡ stored f
    → normalize_string_array f.evidence_ids ≡ f.evidence_ids
    → fact_on k (upsert_truth_fact input now recorded tape).0
      ≡ history_step k (fact_upserted f) recorded (fact_on k tape)
unfolding upsert_truth_fact
upsert_recorded input now recorded tape f k e clean =
    let (recorded_as, id, kind, summary) =
      checked_recorded (normalize_optional input.id) (normalize_optional input.kind)
        (normalize_optional input.summary) input now recorded tape f e in
    ap (fact_on k) recorded_as
    ∙ fact_on-record_event k (raw_upserted (to_raw f)) recorded tape
    ∙ ap (λ o. history_payload k o recorded (fact_on k tape))
        (coerce-to_raw f (record {
          id_trimmed = trim-IsTrimmed input.id f.id id;
          kind_trimmed = trim-IsTrimmed input.kind f.kind kind;
          summary_trimmed = trim-IsTrimmed input.summary f.summary summary;
          evidence_trimmed = clean;
        }))

-- `upsertTruthFact` of a fact that is not there yet: afterwards the fact of its id is the one that
-- the call returned, and every other fact is as it was, where the evidence ids are trimmed.
pub upsert_adds :
    (input : UpsertInput) (now recorded : ℕ) (tape : List TruthEvent) (f : Fact) (k : String)
    → (upsert_truth_fact input now recorded tape).1 ≡ stored f
    → normalize_string_array f.evidence_ids ≡ f.evidence_ids
    → fact_on f.id tape ≡ none
    → fact_on k (upsert_truth_fact input now recorded tape).0
      ≡ (if f.id == k then some f else fact_on k tape)
unfolding history_step
upsert_adds input now recorded tape f k e clean missing =
    upsert_recorded input now recorded tape f k e clean ∙ step_none (fact_on k tape) refl
  where
    step_none :
        (o : Option Fact)
        → fact_on k tape ≡ o
        → history_step k (fact_upserted f) recorded o ≡ (if f.id == k then some f else o)
    step_none none h = refl
    step_none (some old) h =
        ground (
          arith,
          h,
          missing,
          eq_iff f.id k,
          λ (q : f.id ≡ k). ap (λ (j : String). fact_on j tape) q,
        )
