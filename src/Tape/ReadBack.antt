-- ===== src/Tape/ReadBack.antt =====
-- The reader of a checkpoint gives back the evidence and the projection that were written, and trims
-- the tools of the failures (packages/brewva-runtime/src/tape/events.ts).
use pi_roaster.Base.{ℕ, ◌≡◌, refl, subst, ap, Option, none, some, List, [], ◌∷◌, map, All}
use pi_roaster.Base.Coerce.{IsTrimmed, trim-IsTrimmed, Holds, Holds-bind, ◌>>=◌}
use pi_roaster.Base.Text.{normalize_optional}
use pi_roaster.Tape.{Failure, Evidence, Projection, CheckpointEvidence, save_evidence, finite_count}
use pi_roaster.Tape.View.{Checkpoint}
use pi_roaster.Tape.Reader.{
  RawFailure, RawEvidence, RawCheckpoint, coerce_failure, add_some, coerce_failures,
  coerce_evidence, coerce_time, coerce_projection, coerce_checkpoint, raw_failure, raw_evidence,
  raw_projection,
}

abbrev pub HasTrimmedTool : Failure → Type 0
HasTrimmedTool f = IsTrimmed f.tool

coerce_failure-written : (f : Failure) → HasTrimmedTool f → coerce_failure (raw_failure f) ≡ some f
unfolding coerce_failure finite_count
coerce_failure-written f h = rw (h, ◌>>=◌) refl

coerce_failures-written :
    (fs : List Failure) → All HasTrimmedTool fs → coerce_failures (map raw_failure fs) ≡ fs
unfolding coerce_failures
coerce_failures-written [] h = refl
coerce_failures-written (f ∷ fs) h =
    rw (coerce_failure-written f h.0, add_some) (ap (λ l. f ∷ l) (coerce_failures-written fs h.1))

pub coerce_evidence-written :
    (e : Evidence)
    → All HasTrimmedTool e.recent_failures
    → coerce_evidence (raw_evidence e) ≡ some (save_evidence e)
unfolding coerce_evidence finite_count
coerce_evidence-written e h =
    ap (λ fs. some (record (save_evidence e) { recent_failures = fs }))
      (coerce_failures-written e.recent_failures h)

written :
    (updated_at : Option ℕ) (units : ℕ)
    → let p : Projection = record { updated_at = updated_at; unit_count = units } in
      coerce_projection (raw_projection p) ≡ some p
unfolding coerce_projection coerce_time finite_count
written none units = refl
written (some t) units = refl

pub coerce_projection-written : (p : Projection) → coerce_projection (raw_projection p) ≡ some p
coerce_projection-written p = written p.updated_at p.unit_count

add_some-trimmed :
    (o : Option Failure) (fs : List Failure)
    → Holds HasTrimmedTool o
    → All HasTrimmedTool fs
    → All HasTrimmedTool (add_some o fs)
add_some-trimmed none fs h k = k
add_some-trimmed (some f) fs h k = (h, k)

coerce_failure-trimmed : (r : RawFailure) → Holds HasTrimmedTool (coerce_failure r)
unfolding coerce_failure
coerce_failure-trimmed r = Holds-bind HasTrimmedTool (normalize_optional r.tool) _ (λ tool t.
    Holds-bind HasTrimmedTool r.output_text _ (λ output _.
      Holds-bind HasTrimmedTool (finite_count r.turn) _ (λ turn _.
        Holds-bind HasTrimmedTool (finite_count r.anchor_epoch) _ (λ epoch _.
          Holds-bind HasTrimmedTool (finite_count r.timestamp) _
            (λ time _. trim-IsTrimmed r.tool tool t)))))

coerce_failures-trimmed : (rs : List RawFailure) → All HasTrimmedTool (coerce_failures rs)
unfolding coerce_failures
coerce_failures-trimmed [] = tt
coerce_failures-trimmed (r ∷ rs) =
    add_some-trimmed (coerce_failure r) (coerce_failures rs) (coerce_failure-trimmed r)
      (coerce_failures-trimmed rs)

abbrev pub HasTrimmedTools : CheckpointEvidence → Type 0
HasTrimmedTools e = All HasTrimmedTool e.recent_failures

coerce_evidence-trimmed : (r : RawEvidence) → Holds HasTrimmedTools (coerce_evidence r)
unfolding coerce_evidence
coerce_evidence-trimmed r = Holds-bind HasTrimmedTools (finite_count r.total_records) _ (λ total _.
    Holds-bind HasTrimmedTools (finite_count r.failure_records) _ (λ failed _.
      Holds-bind HasTrimmedTools (finite_count r.anchor_epoch) _
        (λ epoch _. coerce_failures-trimmed r.recent_failures)))

-- The evidence and the projection of a checkpoint are what their readers make of its payload.
abbrev pub IsReadOf : RawCheckpoint → Checkpoint → Type 0
IsReadOf r p =
    coerce_evidence r.evidence ≡ some p.evidence
    × coerce_projection r.projection ≡ some p.projection

pub coerce_checkpoint-IsReadOf : (r : RawCheckpoint) → Holds (IsReadOf r) (coerce_checkpoint r)
unfolding coerce_checkpoint
coerce_checkpoint-IsReadOf r = Holds-bind (IsReadOf r) r.task _ (λ task _.
    Holds-bind (IsReadOf r) r.truth _ (λ truth _.
      Holds-bind (IsReadOf r) (normalize_optional r.reason) _ (λ reason _.
        Holds-bind (IsReadOf r) (finite_count r.created_at) _ (λ created_at _.
          Holds-bind (IsReadOf r) r.cost _ (λ cost _.
            Holds-bind (IsReadOf r) r.cost_skill_last_turn _ (λ turns _.
              Holds-bind (IsReadOf r) (coerce_evidence r.evidence) _ (λ evidence e.
                Holds-bind (IsReadOf r) (coerce_projection r.projection) _
                  (λ projection p. (e, p)))))))))

-- The failures of a checkpoint that is read have trimmed tools.
pub coerce_checkpoint-trimmed :
    (r : RawCheckpoint) (p : Checkpoint)
    → coerce_checkpoint r ≡ some p
    → All HasTrimmedTool p.evidence.recent_failures
coerce_checkpoint-trimmed r p h =
    subst (Holds HasTrimmedTools) (subst (Holds (IsReadOf r)) h (coerce_checkpoint-IsReadOf r)).0
      (coerce_evidence-trimmed r.evidence)
