-- ===== src/Parallel/Results/Merging.antt =====
-- What a merge of worker results contains (packages/brewva-runtime/src/parallel/results.ts).
use pi_roaster.Base.{
  ◌≤◌, ◌≡◌, refl, ap, sym, ◌∙◌, subst, inl, inr, String, Bool, true, false, ◌&&◌, ◌||◌, Option,
  none, some, List, [], ◌∷◌, ◌++◌, leb, ◌==◌, string_eq, eq_iff, if◌then◌else◌, Bool-cases,
  Option-cases, length, or_else, is_some, All, arith,
}
use mathlib.Core.List.{append_assoc, append-nil}
use pi_roaster.Base.Dict
use pi_roaster.Base.Dict.{Dict, All-get}
use pi_roaster.Base.Members
use pi_roaster.Base.Members.{has-add_all, single_member, has-append}
use pi_roaster.Parallel.Results.{
  Change, Origin, WorkerResult, merged, Conflict, group_by_path, distinct, workers_of, conflicts_in,
  detect_conflicts, merge_loop, changes_at, build_merged, all_origins, report_of, merge,
}

-- The origins of changes to one path.
unfoldable pub at_path : String → List Origin → List Origin
at_path p [] = []
at_path p (o ∷ os) = let rest = at_path p os in if o.change.path == p then o ∷ rest else rest

abbrev group : String → Dict (List Origin) → List Origin
group p d = or_else (Dict.get p d) []

group-group_by_path :
    (p : String) (d : Dict (List Origin)) (os : List Origin)
    → group p (group_by_path d os) ≡ group p d ++ at_path p os
unfolding group_by_path at_path
group-group_by_path p d [] = sym (append-nil (group p d))
group-group_by_path p d (o ∷ os) =
    group-group_by_path p (Dict.set o.change.path (group o.change.path d ++ o ∷ []) d) os
    ∙ elim (Bool-cases (o.change.path == p)) [
      | inl same ↦ rw (Dict.get-set o.change.path p (group o.change.path d ++ o ∷ []) d) (
          rw same (
            ap (λ k. (group k d ++ o ∷ []) ++ at_path p os) ((eq_iff o.change.path p).0 same)
            ∙ append_assoc (group p d) (o ∷ []) (at_path p os)))
      | inr other ↦ rw (Dict.get-set o.change.path p (group o.change.path d ++ o ∷ []) d) (rw other)
    ]

-- At most one worker among the origins.
abbrev IsOneWorker : List Origin → Type 0
IsOneWorker os = length (distinct (workers_of os)) ≤ 1

each-IsOneWorker : (d : Dict (List Origin)) → conflicts_in d ≡ [] → All IsOneWorker (Dict.values d)
unfolding conflicts_in Dict.values
each-IsOneWorker [] e = tt
each-IsOneWorker ((path, os) ∷ d) e =
    elim (Bool-cases (leb (length (distinct (workers_of os))) 1)) [
      | inl few ↦ (ground arith, each-IsOneWorker d (rw few at e))
      | inr many ↦ absurd (ground (arith, e, many))
    ]

-- Whether the worker `w` changed the path `p`.
unfoldable pub touches : String → String → List Origin → Bool
touches p w [] = false
touches p w (o ∷ os) = o.change.path == p && o.worker_id == w || touches p w os

touches-at_path :
    (p w : String) (os : List Origin) → touches p w os ≡ Members.has w (workers_of (at_path p os))
unfolding touches at_path Members.has
touches-at_path p w [] = refl
touches-at_path p w (o ∷ os) = ground (arith, touches-at_path p w os)

group-IsOneWorker :
    (p : String) (d : Dict (List Origin)) → conflicts_in d ≡ [] → IsOneWorker (group p d)
group-IsOneWorker p d e = elim (Option-cases (Dict.get p d)) [
  | inl missing ↦ rw missing (unfold Members.add_all in omega arith)
  | inr (os, found) ↦ rw found (All-get IsOneWorker p d os (each-IsOneWorker d e) found)
]

one_worker :
    (os : List Origin) (p w w' : String)
    → detect_conflicts os ≡ []
    → touches p w os ≡ true
    → touches p w' os ≡ true
    → w ≡ w'
unfolding detect_conflicts
one_worker os p w w' e h h' =
    single_member w w' (distinct (workers_of (at_path p os)))
      (subst IsOneWorker (group-group_by_path p [] os ∙ unfold Dict.get in refl)
        (group-IsOneWorker p (group_by_path [] os) e))
      (member w h) (member w' h')
  where
    member :
        (v : String)
        → touches p v os ≡ true
        → Members.has v (distinct (workers_of (at_path p os))) ≡ true
    member v t =
        has-add_all v (workers_of (at_path p os)) [] ∙ ground (arith, t, touches-at_path p v os)

report_merged :
    (workers : List String) (os : List Origin) (conflicts : List Conflict) (ws : List String)
    (changes : List Change)
    → report_of workers os conflicts ≡ merged ws changes
    → (conflicts ≡ []) × (changes ≡ build_merged os)
unfolding report_of
report_merged workers [] conflicts ws changes e = absurd (ground (arith, e))
report_merged workers (o ∷ os) [] ws changes e = (refl, ground (arith, e))
report_merged workers (o ∷ os) (c ∷ cs) ws changes e = absurd (ground (arith, e))

-- If the results of a session are merged, then no path was changed by two workers.
pub merge_one_worker :
    (results : Dict WorkerResult) (ws : List String) (changes : List Change) (p w w' : String)
    → merge results ≡ merged ws changes
    → touches p w (all_origins (Dict.values results)) ≡ true
    → touches p w' (all_origins (Dict.values results)) ≡ true
    → w ≡ w'
unfolding merge
merge_one_worker results ws changes p w w' e =
    one_worker (all_origins (Dict.values results)) p w w'
      (report_merged _ (all_origins (Dict.values results)) _ ws changes e).0

-- The last change of a path.
unfoldable pub final_change : String → List Origin → Option Change
final_change p [] = none
final_change p (o ∷ os) = elim (final_change p os) [
  | some c ↦ some c
  | none ↦ if o.change.path == p then some o.change else none
]

abbrev either : Option Change → Option Change → Option Change
either (some c) o = some c
either none o = o

either-none : (o : Option Change) → either o none ≡ o
either-none none = refl
either-none (some c) = refl

-- The changes of a path in a list of changes.
unfoldable pub changes_of : String → List Change → List Change
changes_of p [] = []
changes_of p (c ∷ cs) = let rest = changes_of p cs in if c.path == p then c ∷ rest else rest

-- One change, or none.
abbrev pub as_list : Option Change → List Change
as_list none = []
as_list (some c) = c ∷ []

-- Each change is stored under its own path, and the paths are those of the stored changes.
abbrev IsKeyed : Dict Change → Type 0
IsKeyed d = (q : String) (c : Change) → Dict.get q d ≡ some c → c.path ≡ q

abbrev IsTracked : Dict Change → List String → Type 0
IsTracked d paths = (q : String) → Members.has q paths ≡ is_some (Dict.get q d)

changes_of-found :
    (p q : String) (found : Option Change) (cs : List Change)
    → ((c : Change) → found ≡ some c → c.path ≡ q)
    → changes_of p (elim found [ none ↦ cs | some c ↦ c ∷ cs ])
      ≡ (if q == p then as_list found ++ changes_of p cs else changes_of p cs)
unfolding changes_of
changes_of-found p q none cs k = ground arith
changes_of-found p q (some c) cs k = rw (k c refl) refl

changes_of-changes_at :
    (p : String) (d : Dict Change) (paths : List String)
    → IsKeyed d
    → Members.Distinct paths
    → changes_of p (changes_at d paths)
      ≡ (if Members.has p paths then as_list (Dict.get p d) else [])
unfolding changes_at Members.has
changes_of-changes_at p d [] k once = unfold changes_of in refl
changes_of-changes_at p d (q ∷ qs) k once =
    changes_of-found p q (Dict.get q d) (changes_at d qs) (k q) ∙ elim (Bool-cases (q == p)) [
      | inl same ↦
          let e : q ≡ p = (eq_iff q p).0 same in
          let absent : Members.has p qs ≡ false = subst (λ r. Members.has r qs ≡ false) e once.0 in
          rw (same, changes_of-changes_at p d qs k once.1)
            (rw absent (append-nil (as_list (Dict.get q d)) ∙ ap (λ r. as_list (Dict.get r d)) e))
      | inr other ↦ rw (other, changes_of-changes_at p d qs k once.1) refl
    ]

set-IsKeyed : (d : Dict Change) (c : Change) → IsKeyed d → IsKeyed (Dict.set c.path c d)
set-IsKeyed d c k q c' e = ground (arith, e, k q c', Dict.get-set c.path q c d, eq_iff c.path q)

set-IsTracked :
    (d : Dict Change) (paths : List String) (c : Change)
    → IsTracked d paths
    → IsTracked
        (Dict.set c.path c d)
        (elim (Dict.get c.path d) [ none ↦ paths ++ c.path ∷ [] | some c' ↦ paths ])
unfolding Members.has
set-IsTracked d paths c t q = elim (Option-cases (Dict.get c.path d)) [
  | inl missing ↦
      rw missing
        (ground (arith, missing, t q, has-append q paths (c.path ∷ []), Dict.get-set c.path q c d))
  | inr (c', found) ↦
      rw found (ground (arith, found, t q, t c.path, Dict.get-set c.path q c d, eq_iff c.path q))
]

select_list :
    (b : Bool) (o : Option Change) → b ≡ is_some o → (if b then as_list o else []) ≡ as_list o
select_list b none e = ground arith
select_list b (some c) e = ground (arith, e)

final_change-set :
    (p : String) (d : Dict Change) (o : Origin) (os : List Origin)
    → either (final_change p os) (Dict.get p (Dict.set o.change.path o.change d))
      ≡ either (final_change p (o ∷ os)) (Dict.get p d)
unfolding final_change
final_change-set p d o os = ground (arith, Dict.get-set o.change.path p o.change d)

-- No path is listed twice.
track-Distinct :
    (d : Dict Change) (paths : List String) (c : Change)
    → IsTracked d paths
    → Members.Distinct paths
    → Members.Distinct (elim (Dict.get c.path d) [ none ↦ paths ++ c.path ∷ [] | some c' ↦ paths ])
track-Distinct d paths c t once = elim (Option-cases (Dict.get c.path d)) [
  | inl missing ↦
      rw missing (Members.snoc-Distinct c.path paths (t c.path ∙ ap is_some missing) once)
  | inr (c', found) ↦ rw found once
]

changes_of-merge_loop :
    (p : String) (d : Dict Change) (paths : List String) (os : List Origin)
    → IsKeyed d
    → IsTracked d paths
    → Members.Distinct paths
    → (let (d', paths') = merge_loop d paths os in changes_of p (changes_at d' paths'))
      ≡ as_list (either (final_change p os) (Dict.get p d))
unfolding merge_loop final_change
changes_of-merge_loop p d paths [] k t once =
    changes_of-changes_at p d paths k once ∙ select_list (Members.has p paths) (Dict.get p d) (t p)
changes_of-merge_loop p d paths (o ∷ os) k t once =
    changes_of-merge_loop p (Dict.set o.change.path o.change d) _ os (set-IsKeyed d o.change k)
      (set-IsTracked d paths o.change t) (track-Distinct d paths o.change t once)
    ∙ ap as_list (final_change-set p d o os)

-- If the results of a session are merged, then of each path that some worker changed the merged
-- changes have the last change, once, and of no other path any.
pub merged_last :
    (results : Dict WorkerResult) (ws : List String) (changes : List Change) (p : String)
    → merge results ≡ merged ws changes
    → changes_of p changes ≡ as_list (final_change p (all_origins (Dict.values results)))
unfolding merge build_merged Dict.get
merged_last results ws changes p e =
    ap (changes_of p) (report_merged _ (all_origins (Dict.values results)) _ ws changes e).1
    ∙ changes_of-merge_loop p [] [] (all_origins (Dict.values results))
        (λ q c h. absurd (ground (arith, h))) (λ q. unfold Members.has in refl) tt
    ∙ ap as_list (either-none _)
