-- ===== src/Parallel/Results/Tests.antt =====
-- Two workers that change different files, and the merge of their results.
use pi_roaster.Base.{◌≡◌, refl, some, none, true, [], ◌∷◌, List, String}
use pi_roaster.Base.Dict
use pi_roaster.Base.Dict.{Dict}
use pi_roaster.Base.Members
use pi_roaster.Parallel.Results.{
  Change, WorkerResult, modify_file, delete_file, worker_ok, merged, conflicting, merge,
  group_by_path, conflicts_in, detect_conflicts, merge_loop, changes_at, build_merged, all_origins,
  report_of, record_result,
}
use pi_roaster.Parallel.Results.Merging.{
  touches, final_change, changes_of, as_list, merge_one_worker, merged_last,
}

abbrev change_of : String → Change
change_of path = record {
  path = path;
  action = modify_file;
  before_hash = none;
  after_hash = none;
  diff_text = none;
}

abbrev removal_of : String → Change
removal_of path = record (change_of path) { action = delete_file }

abbrev result_of : String → List Change → WorkerResult
result_of worker changes = record {
  worker_id = worker;
  status = worker_ok;
  patches = some (record { id = "patch"; changes = changes });
}

abbrev two_results : Dict WorkerResult
two_results =
    ("w1", result_of "w1" (change_of "a" ∷ removal_of "a" ∷ []))
    ∷ ("w2", result_of "w2" (change_of "b" ∷ []))
    ∷ []

two_merge : merge two_results ≡ merged ("w1" ∷ "w2" ∷ []) (removal_of "a" ∷ change_of "b" ∷ [])
unfolding merge all_origins detect_conflicts report_of build_merged group_by_path conflicts_in
    merge_loop changes_at Dict.get Dict.set Dict.values Members.add_all Members.add Members.has
two_merge = refl

a_touched : touches "a" "w1" (all_origins (Dict.values two_results)) ≡ true
unfolding touches all_origins Dict.values
a_touched = refl

abbrev first_worker : String
first_worker = "w1"

merge_one_worker_example : first_worker ≡ first_worker
merge_one_worker_example =
    merge_one_worker two_results ("w1" ∷ "w2" ∷ []) (removal_of "a" ∷ change_of "b" ∷ []) "a" "w1"
      "w1" two_merge a_touched a_touched

merged_last_example :
    changes_of "a" (removal_of "a" ∷ change_of "b" ∷ [])
    ≡ as_list (final_change "a" (all_origins (Dict.values two_results)))
merged_last_example =
    merged_last two_results ("w1" ∷ "w2" ∷ []) (removal_of "a" ∷ change_of "b" ∷ []) "a" two_merge

-- A path that both workers changed.
same_path : Dict WorkerResult
unfolding record_result Dict.set
same_path = record_result (result_of "w2" (change_of "a" ∷ [])) two_results

same_path_conflicts :
    merge same_path
    ≡ conflicting
        ("w1" ∷ "w2" ∷ [])
        ((record { path = "a"; worker_ids = "w1" ∷ "w2" ∷ []; patch_set_ids = "patch" ∷ [] }) ∷ [])
unfolding same_path record_result merge all_origins detect_conflicts report_of group_by_path
    conflicts_in Dict.get Dict.set Dict.values Members.add_all Members.add Members.has
same_path_conflicts = refl
