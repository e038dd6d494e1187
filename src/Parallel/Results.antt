-- ===== src/Parallel/Results.antt =====
-- packages/brewva-runtime/src/parallel/results.ts: `ParallelResultStore` on the results of one
-- session, by worker id.
pub mod Merging
mod Tests
use pi_roaster.Base.{
  ℕ, String, Option, none, some, List, [], ◌∷◌, ◌++◌, map, leb, ◌==◌, string_eq, if◌then◌else◌,
  length, or_else, Bool, true, false,
}
use pi_roaster.Base.Dict
use pi_roaster.Base.Dict.{Dict}
use pi_roaster.Base.Members

pub data PatchAction : Type 0 where
  add_file modify_file delete_file : PatchAction

-- `PatchFileChange`.
pub record Change : Type 0 where
  pub path : String
  pub action : PatchAction
  pub before_hash : Option String
  pub after_hash : Option String
  pub diff_text : Option String

-- `PatchSet`, but for its time and summary.
pub record PatchSet : Type 0 where
  pub id : String
  pub changes : List Change

pub data WorkerStatus : Type 0 where
  worker_ok worker_error worker_skipped : WorkerStatus

-- What the store reads of a `WorkerResult`.
pub record WorkerResult : Type 0 where
  pub worker_id : String
  pub status : WorkerStatus
  pub patches : Option PatchSet

-- `PatchOrigin`.
pub record Origin : Type 0 where
  pub worker_id : String
  pub patch_set_id : String
  pub change : Change

pub record Conflict : Type 0 where
  pub path : String
  pub worker_ids : List String
  pub patch_set_ids : List String

-- `WorkerMergeReport`; the merged changes stand for the merged patch set.
pub data Report : Type 0 where
  empty : List String → Report
  conflicting : List String → List Conflict → Report
  merged : List String → List Change → Report

unfoldable pub record_result : WorkerResult → Dict WorkerResult → Dict WorkerResult
record_result r results = Dict.set r.worker_id r results

-- The first loop of `detectConflicts`.
unfoldable pub group_by_path : Dict (List Origin) → List Origin → Dict (List Origin)
group_by_path d [] = d
group_by_path d (o ∷ os) =
    group_by_path (Dict.set o.change.path (or_else (Dict.get o.change.path d) [] ++ o ∷ []) d) os

abbrev pub distinct : List String → List String
distinct ids = Members.add_all ids []

abbrev pub workers_of : List Origin → List String
workers_of = map (λ o. o.worker_id)

-- The second loop of `detectConflicts`.
unfoldable pub conflicts_in : Dict (List Origin) → List Conflict
conflicts_in [] = []
conflicts_in ((path, os) ∷ rest) =
    let later = conflicts_in rest in
    if leb (length (distinct (workers_of os))) 1
    then later
    else (record {
      path = path;
      worker_ids = distinct (workers_of os);
      patch_set_ids = distinct (map (λ (o : Origin). o.patch_set_id) os);
    })
      ∷ later

unfoldable pub detect_conflicts : List Origin → List Conflict
unfolding group_by_path conflicts_in
detect_conflicts os = conflicts_in (group_by_path [] os)

-- The loop of `buildMergedPatchSet`: the last change of each path, and the paths in the order in
-- which they come first.
unfoldable pub merge_loop : Dict Change → List String → List Origin → Dict Change × List String
merge_loop d paths [] = (d, paths)
merge_loop d paths (o ∷ os) =
    merge_loop (Dict.set o.change.path o.change d)
      (elim (Dict.get o.change.path d) [ none ↦ paths ++ o.change.path ∷ [] | some c ↦ paths ]) os

unfoldable pub changes_at : Dict Change → List String → List Change
changes_at d [] = []
changes_at d (p ∷ ps) =
    let rest = changes_at d ps in elim (Dict.get p d) [ none ↦ rest | some c ↦ c ∷ rest ]

unfoldable pub build_merged : List Origin → List Change
unfolding merge_loop changes_at
build_merged os = let (d, paths) = merge_loop [] [] os in changes_at d paths

abbrev origins_of_set : String → Option PatchSet → List Origin
origins_of_set worker none = []
origins_of_set worker (some p) =
    map (λ c. record { worker_id = worker; patch_set_id = p.id; change = c }) p.changes

abbrev pub origins_of : WorkerResult → List Origin
origins_of r = elim r.status [ worker_ok ↦ origins_of_set r.worker_id r.patches | _ ↦ [] ]

-- The loop of `merge` over the results.
unfoldable pub all_origins : List WorkerResult → List Origin
all_origins [] = []
all_origins (r ∷ rs) = origins_of r ++ all_origins rs

unfoldable pub report_of : List String → List Origin → List Conflict → Report
report_of workers [] conflicts = empty workers
report_of workers (o ∷ os) [] = merged workers (build_merged (o ∷ os))
report_of workers (o ∷ os) (c ∷ cs) = conflicting workers (c ∷ cs)

unfoldable pub merge : Dict WorkerResult → Report
unfolding all_origins detect_conflicts report_of build_merged
merge results =
    report_of (map (λ (r : WorkerResult). r.worker_id) (Dict.values results))
      (all_origins (Dict.values results)) (detect_conflicts (all_origins (Dict.values results)))
