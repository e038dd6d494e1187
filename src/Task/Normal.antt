-- ===== src/Task/Normal.antt =====
-- The texts of task states as the readers of packages/brewva-runtime/src/task/ledger.ts leave
-- them.
pub mod Reducer
use pi_roaster.Base.{
  ℕ, ◌≡◌, refl, ap, sym, ◌∙◌, subst, inl, inr, String, Bool, true, false, not, Option, none, some,
  List, [], ◌∷◌, ◌++◌, map, ◌==◌, string_eq, if◌then◌else◌, if_cases, or_else, keep, Option-cases,
  All, All-append, All-keep, All-map, arith,
}
use pi_roaster.Base.Text.{normalize_optional, normalize_optional_idem}
use pi_roaster.Base.Coerce.{
  Holds, Holds-bind, ◌>>=◌, normalize_string_array, normalize_string_array_idem, IsTrimmed,
  trim-IsTrimmed,
}
use pi_roaster.Task.{
  ItemStatus, todo, Phase, Health, Spec, TaskStatus, Item, Blocker, TaskState, Payload, spec_set,
  checkpoint_set, status_set, item_added, item_updated, blocker_recorded, blocker_resolved,
  empty_state, reduce_task_state, has_item, update_item, find_blocker, update_blockers,
  record_blocker, first_of, later,
}
use pi_roaster.Task.Reading.{
  RawStatus, RawItem, RawBlocker, RawState, RawPayload, raw_spec, raw_checkpoint, raw_status,
  raw_item_added, raw_item_updated, raw_blocker_recorded, raw_blocker_resolved, raw_other, read_ids,
  coerce_task_status, coerce_item, coerce_blocker, read_all, coerce_task_state, update_payload,
  none_if_empty, coerce_payload, TaskEvent, apply_payload, fold_from, fold_task_events,
}

-- A text that may be absent, and is not blank and has no space at its ends where it is there.
abbrev pub IsClean : Option String → Type 0
IsClean o = normalize_optional o ≡ o

pub record IsNormalStatus (s : TaskStatus) : Type 0 where
  pub reason_clean : IsClean s.reason
  pub ids_clean : read_ids s.truth_fact_ids ≡ s.truth_fact_ids

pub record IsNormalItem (i : Item) : Type 0 where
  pub id_trimmed : IsTrimmed i.id
  pub text_trimmed : IsTrimmed i.text

pub record IsNormalBlocker (b : Blocker) : Type 0 where
  pub id_trimmed : IsTrimmed b.id
  pub message_trimmed : IsTrimmed b.message
  pub source_clean : IsClean b.source
  pub truth_clean : IsClean b.truth_fact_id

-- The texts of all parts of a state are as the readers leave them.
pub record IsNormal (s : TaskState) : Type 0 where
  pub status_normal : Holds IsNormalStatus s.status
  pub items_normal : All IsNormalItem s.items
  pub blockers_normal : All IsNormalBlocker s.blockers

abbrev pub IsNormalPayload : Payload → Type 0
IsNormalPayload (spec_set spec) = Unit
IsNormalPayload (checkpoint_set s) = IsNormal s
IsNormalPayload (status_set s) = IsNormalStatus s
IsNormalPayload (item_added id text status) = IsTrimmed id × IsTrimmed text
IsNormalPayload (item_updated id text status) = IsTrimmed id × IsClean text
IsNormalPayload (blocker_recorded id message source truth) =
    IsTrimmed id × IsTrimmed message × IsClean source × IsClean truth
IsNormalPayload (blocker_resolved id) = Unit

read_ids_idem : (ids : Option (List String)) → read_ids (read_ids ids) ≡ read_ids ids
unfolding read_ids
read_ids_idem none = refl
read_ids_idem (some ids) = go (normalize_string_array ids) (normalize_string_array_idem ids)
  where
    go :
        (l : List String)
        → normalize_string_array l ≡ l
        → read_ids (none_if_empty l) ≡ none_if_empty l
    go [] e = refl
    go (x ∷ l) e = ap none_if_empty e

coerce_task_status-IsNormal : (r : RawStatus) → Holds IsNormalStatus (coerce_task_status r)
unfolding coerce_task_status
coerce_task_status-IsNormal r = Holds-bind IsNormalStatus r.phase _ (λ phase _.
    Holds-bind IsNormalStatus r.health _ (λ health _.
      Holds-bind IsNormalStatus r.updated_at _ (λ at _. record {
        reason_clean = normalize_optional_idem r.reason;
        ids_clean = read_ids_idem r.truth_fact_ids;
      })))

coerce_item-IsNormal : (r : RawItem) → Holds IsNormalItem (coerce_item r)
unfolding coerce_item
coerce_item-IsNormal r = Holds-bind IsNormalItem (normalize_optional r.id) _ (λ id i.
    Holds-bind IsNormalItem (normalize_optional r.text) _ (λ text t.
      Holds-bind IsNormalItem r.created_at _ (λ c _. Holds-bind IsNormalItem r.updated_at _ (λ u _.
        record {
          id_trimmed = trim-IsTrimmed r.id id i;
          text_trimmed = trim-IsTrimmed r.text text t;
        }))))

coerce_blocker-IsNormal : (r : RawBlocker) → Holds IsNormalBlocker (coerce_blocker r)
unfolding coerce_blocker
coerce_blocker-IsNormal r = Holds-bind IsNormalBlocker (normalize_optional r.id) _ (λ id i.
    Holds-bind IsNormalBlocker (normalize_optional r.message) _ (λ message m.
      Holds-bind IsNormalBlocker r.created_at _ (λ c _. record {
        id_trimmed = trim-IsTrimmed r.id id i;
        message_trimmed = trim-IsTrimmed r.message message m;
        source_clean = normalize_optional_idem r.source;
        truth_clean = normalize_optional_idem r.truth_fact_id;
      })))

All-one_read {κ μ} :
    {B : Type κ} (P : B → Type μ) (o : Option B) (rest : List B)
    → Holds P o
    → All P rest
    → All P (elim o [ none ↦ rest | some y ↦ y ∷ rest ])
All-one_read P none rest h r = r
All-one_read P (some y) rest h r = (h, r)

All-read_all {ℓ κ μ} :
    {A : Type ℓ} {B : Type κ} (P : B → Type μ) (read : A → Option B)
    → ((a : A) → Holds P (read a))
    → (xs : List A) → All P (read_all read xs)
unfolding read_all
All-read_all P read h [] = tt
All-read_all P read h (x ∷ xs) =
    All-one_read P (read x) (read_all read xs) (h x) (All-read_all P read h xs)

coerce_task_state-IsNormal : (r : RawState) → Holds IsNormal (coerce_task_state r)
unfolding coerce_task_state
coerce_task_state-IsNormal r = Holds-bind IsNormal r.items _ (λ items _.
    Holds-bind IsNormal r.blockers _ (λ blockers _. record {
      status_normal =
          Holds-bind IsNormalStatus r.status coerce_task_status
            (λ s _. coerce_task_status-IsNormal s);
      items_normal = All-read_all IsNormalItem coerce_item coerce_item-IsNormal items;
      blockers_normal =
          All-read_all IsNormalBlocker coerce_blocker coerce_blocker-IsNormal blockers;
    }))

update_payload-IsNormal :
    (id : String) (text : Option String) (status : Option ItemStatus)
    → IsTrimmed id
    → IsClean text
    → Holds IsNormalPayload (update_payload id text status)
update_payload-IsNormal id none none i t = tt
update_payload-IsNormal id none (some s) i t = (i, t)
update_payload-IsNormal id (some text) status i t = (i, t)

pub coerce_payload-IsNormal : (raw : RawPayload) → Holds IsNormalPayload (coerce_payload raw)
unfolding coerce_payload
coerce_payload-IsNormal (raw_spec spec) = Holds-bind IsNormalPayload spec _ (λ s _. tt)
coerce_payload-IsNormal (raw_checkpoint none) = tt
coerce_payload-IsNormal (raw_checkpoint (some r)) =
    Holds-bind IsNormalPayload (coerce_task_state r) _
      (λ s e. subst (Holds IsNormal) e (coerce_task_state-IsNormal r))
coerce_payload-IsNormal (raw_status none) = tt
coerce_payload-IsNormal (raw_status (some r)) =
    Holds-bind IsNormalPayload (coerce_task_status r) _
      (λ s e. subst (Holds IsNormalStatus) e (coerce_task_status-IsNormal r))
coerce_payload-IsNormal (raw_item_added raw_id raw_text status) =
    Holds-bind IsNormalPayload (normalize_optional raw_id) _ (λ id i.
      Holds-bind IsNormalPayload (normalize_optional raw_text) _
        (λ text t. (trim-IsTrimmed raw_id id i, trim-IsTrimmed raw_text text t)))
coerce_payload-IsNormal (raw_item_updated raw_id raw_text status) =
    Holds-bind IsNormalPayload (normalize_optional raw_id) _ (λ id i.
      update_payload-IsNormal id (normalize_optional raw_text) status (trim-IsTrimmed raw_id id i)
        (normalize_optional_idem raw_text))
coerce_payload-IsNormal (raw_blocker_recorded raw_id raw_message source truth) =
    Holds-bind IsNormalPayload (normalize_optional raw_id) _ (λ id i.
      Holds-bind IsNormalPayload (normalize_optional raw_message) _ (λ message m. (
        trim-IsTrimmed raw_id id i,
        trim-IsTrimmed raw_message message m,
        normalize_optional_idem source,
        normalize_optional_idem truth,
      )))
coerce_payload-IsNormal (raw_blocker_resolved raw_id) =
    Holds-bind IsNormalPayload (normalize_optional raw_id) _ (λ id i. tt)
coerce_payload-IsNormal raw_other = tt
