-- ===== src/Task/Normal/Reducer.antt =====
-- How the reducer of packages/brewva-runtime/src/task/ledger.ts treats normal texts.
use pi_roaster.Base.{
  ℕ, String, Option, none, some, List, [], ◌∷◌, map, ◌==◌, string_eq, if◌then◌else◌, if_cases, All,
  All-append, All-keep,
}
use pi_roaster.Base.Coerce.{IsTrimmed}
use pi_roaster.Task.{
  ItemStatus, Item, Blocker, TaskState, Payload, spec_set, checkpoint_set, status_set, item_added,
  item_updated, blocker_recorded, blocker_resolved, empty_state, reduce_task_state, has_item,
  update_item, find_blocker, update_blockers, record_blocker, first_of,
}
use pi_roaster.Task.Reading.{coerce_payload, TaskEvent, apply_payload, fold_from}
use pi_roaster.Task.Normal.{
  IsClean, IsNormalItem, IsNormalBlocker, IsNormal, IsNormalPayload, Holds, coerce_payload-IsNormal,
}

update_item-IsNormal :
    (text : Option String) (status : Option ItemStatus) (t : ℕ) (i : Item)
    → IsClean text
    → IsNormalItem i
    → IsNormalItem (update_item text status t i)
unfolding update_item
update_item-IsNormal none status t i c h = record {
  id_trimmed = h.id_trimmed;
  text_trimmed = h.text_trimmed;
}
update_item-IsNormal (some text) status t i c h = record {
  id_trimmed = h.id_trimmed;
  text_trimmed = c;
}

items-IsNormal :
    (id : String) (text : Option String) (status : Option ItemStatus) (t : ℕ) (is : List Item)
    → IsClean text
    → All IsNormalItem is
    → All IsNormalItem (map (λ i. if i.id == id then update_item text status t i else i) is)
items-IsNormal id text status t [] c h = tt
items-IsNormal id text status t (i ∷ is) c h = (
  if_cases IsNormalItem (i.id == id) (λ _. update_item-IsNormal text status t i c h.0) (λ _. h.0),
  items-IsNormal id text status t is c h.1,
)

update_blockers-IsNormal :
    (id message : String) (source truth : Option String) (bs : List Blocker)
    → IsTrimmed message
    → IsClean source
    → IsClean truth
    → All IsNormalBlocker bs
    → All IsNormalBlocker (update_blockers id message source truth bs)
unfolding update_blockers
update_blockers-IsNormal id message source truth [] m s t h = tt
update_blockers-IsNormal id message source truth (b ∷ bs) m s t h = (
  if_cases IsNormalBlocker (b.id == id)
      (λ _. record {
        id_trimmed = h.0.id_trimmed;
        message_trimmed = m;
        source_clean = s;
        truth_clean = t;
      })
      (λ _. h.0),
  update_blockers-IsNormal id message source truth bs m s t h.1,
)

find_blocker-IsNormal :
    (id : String) (bs : List Blocker)
    → All IsNormalBlocker bs
    → Holds IsNormalBlocker (find_blocker id bs)
unfolding find_blocker
find_blocker-IsNormal id [] h = tt
find_blocker-IsNormal id (b ∷ bs) h =
    if_cases (Holds IsNormalBlocker) (b.id == id) (λ _. h.0) (λ _. find_blocker-IsNormal id bs h.1)

first_of-IsClean : (a b : Option String) → IsClean a → IsClean b → IsClean (first_of a b)
first_of-IsClean none b ca cb = cb
first_of-IsClean (some a) b ca cb = ca

record_blocker-IsNormal :
    (found : Option Blocker) (id message : String) (source truth : Option String) (t : ℕ)
    (bs : List Blocker)
    → Holds IsNormalBlocker found
    → IsTrimmed id
    → IsTrimmed message
    → IsClean source
    → IsClean truth
    → All IsNormalBlocker bs
    → All IsNormalBlocker (record_blocker found id message source truth t bs)
unfolding record_blocker
record_blocker-IsNormal none id message source truth t bs f i m cs ct h =
    All-append IsNormalBlocker bs _ h
      (record { id_trimmed = i; message_trimmed = m; source_clean = cs; truth_clean = ct }, tt)
record_blocker-IsNormal (some b) id message source truth t bs f i m cs ct h =
    if_cases (All IsNormalBlocker) _
      (λ _.
        update_blockers-IsNormal id message _ _ bs m
          (first_of-IsClean source b.source cs f.source_clean)
          (first_of-IsClean truth b.truth_fact_id ct f.truth_clean) h)
      (λ _. h)

added-IsNormal :
    (id text : String) (status : Option ItemStatus) (t : ℕ) (s : TaskState)
    → IsTrimmed id
    → IsTrimmed text
    → IsNormal s
    → IsNormal (reduce_task_state s (item_added id text status) t)
unfolding reduce_task_state
added-IsNormal id text status t s i x h =
    if_cases IsNormal (has_item id s.items)
      (λ _. record {
        status_normal = h.status_normal;
        items_normal = h.items_normal;
        blockers_normal = h.blockers_normal;
      })
      (λ _. record {
        status_normal = h.status_normal;
        items_normal =
            All-append IsNormalItem s.items _ h.items_normal
              (record { id_trimmed = i; text_trimmed = x }, tt);
        blockers_normal = h.blockers_normal;
      })

reduce-IsNormal :
    (s : TaskState) (p : Payload) (t : ℕ)
    → IsNormalPayload p
    → IsNormal s
    → IsNormal (reduce_task_state s p t)
unfolding reduce_task_state
reduce-IsNormal s (spec_set spec) t n h = record {
  status_normal = h.status_normal;
  items_normal = h.items_normal;
  blockers_normal = h.blockers_normal;
}
reduce-IsNormal s (status_set status) t n h = record {
  status_normal = n;
  items_normal = h.items_normal;
  blockers_normal = h.blockers_normal;
}
reduce-IsNormal s (checkpoint_set c) t n h = record {
  status_normal = n.status_normal;
  items_normal = n.items_normal;
  blockers_normal = n.blockers_normal;
}
reduce-IsNormal s (item_added id text status) t n h = added-IsNormal id text status t s n.0 n.1 h
reduce-IsNormal s (item_updated id text status) t n h = record {
  status_normal = h.status_normal;
  items_normal = items-IsNormal id text status t s.items n.1 h.items_normal;
  blockers_normal = h.blockers_normal;
}
reduce-IsNormal s (blocker_recorded id message source truth) t n h = record {
  status_normal = h.status_normal;
  items_normal = h.items_normal;
  blockers_normal =
      record_blocker-IsNormal (find_blocker id s.blockers) id message source truth t s.blockers
        (find_blocker-IsNormal id s.blockers h.blockers_normal) n.0 n.1 n.2 n.3 h.blockers_normal;
}
reduce-IsNormal s (blocker_resolved id) t n h = record {
  status_normal = h.status_normal;
  items_normal = h.items_normal;
  blockers_normal = All-keep IsNormalBlocker _ s.blockers h.blockers_normal;
}

apply_payload-IsNormal :
    (p : Option Payload) (t : ℕ) (s : TaskState)
    → Holds IsNormalPayload p
    → IsNormal s
    → IsNormal (apply_payload p t s)
apply_payload-IsNormal none t s n h = h
apply_payload-IsNormal (some p) t s n h = reduce-IsNormal s p t n h

pub fold_from-IsNormal :
    (s : TaskState) (es : List TaskEvent) → IsNormal s → IsNormal (fold_from s es)
unfolding fold_from
fold_from-IsNormal s [] h = h
fold_from-IsNormal s (e ∷ es) h =
    fold_from-IsNormal (apply_payload (coerce_payload e.payload) e.timestamp s) es (
      apply_payload-IsNormal (coerce_payload e.payload) e.timestamp s
        (coerce_payload-IsNormal e.payload) h)

pub empty-IsNormal : IsNormal empty_state
empty-IsNormal = record { status_normal = tt; items_normal = tt; blockers_normal = tt }
