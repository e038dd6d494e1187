-- ===== src/Rollback/Ending.antt =====
-- Repeated rollbacks come to an end
-- (packages/brewva-runtime/src/services/mutation-rollback.ts).
use pi_roaster.Base.{
  ℕ, zero, suc, ◌≤◌, ◌≡◌, refl, sym, ◌∙◌, ap, subst, String, Bool, true, false, not, Option, none,
  some, List, [], ◌∷◌, All, length, inl, inr, Bool-cases, Option-cases, if◌then◌else◌, if_cases,
  ◌==◌, string_eq, eq_iff, arith, or_else, ◌&&◌,
}
use pi_roaster.Base.Members
use pi_roaster.Base.Text.{trim}
use pi_roaster.Rollback.{Recorded, Cell, is_open, latest_open, rollback_candidate, mark_rolled_back}
use pi_roaster.Rollback.Service.{
  PatchAnswer, RollbackResult, Effect, no_candidate, roll_back, finish_rollback, rollback_last,
}

unfoldable pub open_count : List String → List Recorded → ℕ
open_count rolled_back [] = 0
open_count rolled_back (r ∷ rs) =
    let n = open_count rolled_back rs in if is_open rolled_back r then suc n else n

open_count-le :
    (rolled_back : List String) (rs : List Recorded) → open_count rolled_back rs ≤ length rs
unfolding open_count
open_count-le rolled_back [] = omega arith
open_count-le rolled_back (r ∷ rs) = ground (arith, open_count-le rolled_back rs)

has-add :
    (k j : String) (m : List String)
    → Members.has j m ≡ true
    → Members.has j (Members.add k m) ≡ true
unfolding Members.add
has-add k j m h =
    if_cases (λ q. Members.has j q ≡ true) (Members.has k m) (λ _. h)
      (λ _. Members.has-append j m (k ∷ []) ∙ (rw h refl))

has-added : (k : String) (m : List String) → Members.has k (Members.add k m) ≡ true
unfolding Members.add Members.has
has-added k m =
    if_cases (λ q. Members.has k q ≡ true) (Members.has k m) (λ there. there)
      (λ gone. Members.has-append k m (k ∷ []) ∙ (rw (gone, (eq_iff k k).1 refl) refl))

-- What is open once more has been rolled back was open before.
open_count-add :
    (id : String) (rolled_back : List String) (rs : List Recorded)
    → open_count (Members.add id rolled_back) rs ≤ open_count rolled_back rs
unfolding open_count
open_count-add id rolled_back [] = omega arith
open_count-add id rolled_back (r ∷ rs) = elim (Bool-cases (Members.has r.receipt.id rolled_back)) [
  | inl there ↦
      rw (there, has-add id r.receipt.id rolled_back there) (open_count-add id rolled_back rs)
  | inr gone ↦ rw gone (ground (arith, open_count-add id rolled_back rs))
]

and_false : (there changed : Bool) → (not false && changed) ≡ false → (not there && changed) ≡ false
and_false there changed h = ground arith

is_open-add :
    (id : String) (rolled_back : List String) (r : Recorded)
    → is_open rolled_back r ≡ false
    → is_open (Members.add id rolled_back) r ≡ false
is_open-add id rolled_back r h = elim (Bool-cases (Members.has r.receipt.id rolled_back)) [
  | inl there ↦ rw (has-add id r.receipt.id rolled_back there) refl
  | inr gone ↦ and_false _ r.changed (sym (rw gone refl) ∙ h)
]

closed-added :
    (rolled_back : List String) (m : Recorded)
    → is_open (Members.add m.receipt.id rolled_back) m ≡ false
closed-added rolled_back m = rw (has-added m.receipt.id rolled_back) refl

latest_open-later :
    (rolled_back : List String) (r : Recorded) (rs : List Recorded) (l : Recorded)
    → latest_open rolled_back rs ≡ some l
    → latest_open rolled_back (r ∷ rs) ≡ some l
unfolding latest_open
latest_open-later rolled_back r rs l found = rw (found, latest_open) refl

latest_open-here :
    (rolled_back : List String) (r : Recorded) (rs : List Recorded)
    → latest_open rolled_back rs ≡ none
    → latest_open rolled_back (r ∷ rs) ≡ (if is_open rolled_back r then some r else none)
unfolding latest_open
latest_open-here rolled_back r rs missing = rw (missing, latest_open) refl

latest_open-head :
    (rolled_back : List String) (r : Recorded) (rs : List Recorded)
    → latest_open rolled_back rs ≡ none
    → is_open rolled_back r ≡ true
    → latest_open rolled_back (r ∷ rs) ≡ some r
latest_open-head rolled_back r rs missing opened =
    latest_open-here rolled_back r rs missing ∙ rw opened refl

-- The last open mutation is no longer open once it is rolled back, and no other is opened.
latest_open-closes :
    (rolled_back : List String) (rs : List Recorded) (m : Recorded)
    → latest_open rolled_back rs ≡ some m
    → suc (open_count (Members.add m.receipt.id rolled_back) rs) ≤ open_count rolled_back rs
unfolding latest_open open_count
latest_open-closes rolled_back [] m h = absurd (ground arith)
latest_open-closes rolled_back (r ∷ rs) m h = elim (Option-cases (latest_open rolled_back rs)) [
  | inr (l, found) ↦
      let ih =
        latest_open-closes rolled_back rs m
          (found ∙ sym (latest_open-later rolled_back r rs l found) ∙ h) in
      elim (Bool-cases (is_open rolled_back r)) [
        | inl opened ↦ ground (arith, ih, opened)
        | inr shut ↦ ground (arith, ih, shut, is_open-add m.receipt.id rolled_back r shut)
      ]
  | inl missing ↦ elim (Bool-cases (is_open rolled_back r)) [
    | inl opened ↦
        let same =
          ap (λ o. or_else o r) (sym (latest_open-head rolled_back r rs missing opened) ∙ h) in
        ground (
          arith,
          opened,
          open_count-add m.receipt.id rolled_back rs,
          subst (λ q. is_open (Members.add m.receipt.id rolled_back) q ≡ false) (sym same)
              (closed-added rolled_back m),
        )
    | inr shut ↦ absurd (ground (arith, shut, sym (latest_open-here rolled_back r rs missing) ∙ h))
  ]
]

rollback_last-none :
    (t : ℕ) (patch : String → PatchAnswer) (c : Cell)
    → rollback_candidate c ≡ none
    → rollback_last t patch c ≡ (c, no_candidate, [])
unfolding rollback_last
rollback_last-none t patch c missing = rw (missing, rollback_last) refl

pub rollback_last-some :
    (t : ℕ) (patch : String → PatchAnswer) (c : Cell) (m : Recorded)
    → rollback_candidate c ≡ some m
    → rollback_last t patch c ≡ finish_rollback m (roll_back t patch m m.receipt.strategy) c
unfolding rollback_last
rollback_last-some t patch c m found = rw (found, rollback_last) refl

finish_rollback-marks :
    (m : Recorded) (r : RollbackResult) (effects : List Effect) (c : Cell)
    → r.ok ≡ true
    → (finish_rollback m (r, effects) c).0 ≡ mark_rolled_back m.receipt.id c
unfolding finish_rollback
finish_rollback-marks m r effects c ok = rw ok refl

-- A receipt's id has no space at its ends and is not empty.
abbrev pub HasCleanId : Recorded → Type 0
HasCleanId r = (trim r.receipt.id ≡ r.receipt.id) × ((r.receipt.id == "") ≡ false)

-- A candidate is one of the history.
All-latest {κ} :
    (P : Recorded → Type κ) (rolled_back : List String) (rs : List Recorded) (m : Recorded)
    → All P rs
    → latest_open rolled_back rs ≡ some m
    → P m
unfolding latest_open
All-latest P rolled_back [] m h found = absurd (ground arith)
All-latest P rolled_back (r ∷ rs) m h found = elim (Option-cases (latest_open rolled_back rs)) [
  | inr (l, later) ↦
      All-latest P rolled_back rs m h.1
        (later ∙ sym (latest_open-later rolled_back r rs l later) ∙ found)
  | inl missing ↦ elim (Bool-cases (is_open rolled_back r)) [
    | inl opened ↦
        subst P
          (ap (λ o. or_else o r) (sym (latest_open-head rolled_back r rs missing opened) ∙ found))
          h.0
    | inr shut ↦
        absurd (ground (arith, shut, sym (latest_open-here rolled_back r rs missing) ∙ found))
  ]
]

mark_rolled_back-clean :
    (m : Recorded) (c : Cell)
    → HasCleanId m
    → mark_rolled_back m.receipt.id c
      ≡ record c { rolled_back = Members.add m.receipt.id c.rolled_back }
unfolding mark_rolled_back
mark_rolled_back-clean m c h = rw (h.0, h.1) refl

rollback_last-marks :
    (t : ℕ) (patch : String → PatchAnswer) (c : Cell) (m : Recorded)
    → All HasCleanId c.history
    → rollback_candidate c ≡ some m
    → (rollback_last t patch c).1.ok ≡ true
    → (rollback_last t patch c).0
      ≡ record c { rolled_back = Members.add m.receipt.id c.rolled_back }
unfolding rollback_candidate finish_rollback
rollback_last-marks t patch c m clean found ok =
    let e = rollback_last-some t patch c m found in
    let done = roll_back t patch m m.receipt.strategy in
    ap (λ (q : Cell × RollbackResult × List Effect). q.0) e
    ∙ finish_rollback-marks m done.0 done.1 c
        (sym (ap (λ (q : Cell × RollbackResult × List Effect). q.1.ok) e) ∙ ok)
    ∙ mark_rolled_back-clean m c (All-latest HasCleanId c.rolled_back c.history m clean found)

-- A rollback that succeeds leaves fewer mutations open.
pub rollback_last-closes :
    (t : ℕ) (patch : String → PatchAnswer) (c : Cell)
    → All HasCleanId c.history
    → (rollback_last t patch c).1.ok ≡ true
    → (suc (open_count (rollback_last t patch c).0.rolled_back c.history)
        ≤ open_count c.rolled_back c.history)
      × ((rollback_last t patch c).0.history ≡ c.history)
unfolding rollback_candidate
rollback_last-closes t patch c clean ok = elim (Option-cases (rollback_candidate c)) [
  | inl missing ↦ absurd (
      ground (
        arith,
        sym (
              ap (λ (q : Cell × RollbackResult × List Effect). q.1.ok)
                (rollback_last-none t patch c missing))
            ∙ ok,
      ))
  | inr (m, found) ↦
      let marked = rollback_last-marks t patch c m clean found ok in
      (
        subst
            (λ (q : Cell).
              suc (open_count q.rolled_back c.history) ≤ open_count c.rolled_back c.history)
            (sym marked) (latest_open-closes c.rolled_back c.history m found),
        ap (λ (q : Cell). q.history) marked,
      )
]

-- Rollbacks one after another until one is refused: its result, unless the fuel runs out.
unfoldable pub roll_back_all : ℕ → (ℕ → String → PatchAnswer) → Cell → Option RollbackResult
roll_back_all zero patch c = none
roll_back_all (suc n) patch c =
    let (c', r, effects) = rollback_last n (patch n) c in
    let rest = roll_back_all n patch c' in if r.ok then rest else some r

roll_back_all-refused :
    (n : ℕ) (patch : ℕ → String → PatchAnswer) (c : Cell)
    → All HasCleanId c.history
    → suc (open_count c.rolled_back c.history) ≤ n
    → (r : RollbackResult) × (roll_back_all n patch c ≡ some r) × (r.ok ≡ false)
unfolding roll_back_all
roll_back_all-refused zero patch c clean enough = absurd (omega (arith, enough))
roll_back_all-refused (suc n) patch c clean enough =
    let c' = (rollback_last n (patch n) c).0 in
    elim (Bool-cases (rollback_last n (patch n) c).1.ok) [
      | inl ok ↦
          let closes = rollback_last-closes n (patch n) c clean ok in
          let (r, e, refused) =
            roll_back_all-refused n patch c' (subst (All HasCleanId) (sym closes.1) clean) (
              subst (λ h. suc (open_count c'.rolled_back h) ≤ n) (sym closes.1)
                (omega (arith, enough, closes.0))) in
          (r, rw ok e, refused)
      | inr refused ↦ ((rollback_last n (patch n) c).1, rw refused refl, refused)
    ]

-- In a session whose receipts have ids without spaces at their ends that are not empty, rollbacks
-- one after another end, whatever the file service answers: of one more rollback than the session has
-- recorded mutations, one is refused.
pub roll_back_all-ends :
    (patch : ℕ → String → PatchAnswer) (c : Cell)
    → All HasCleanId c.history
    → (r : RollbackResult) × (roll_back_all (suc (length c.history)) patch c ≡ some r)
      × (r.ok ≡ false)
roll_back_all-ends patch c clean =
    roll_back_all-refused (suc (length c.history)) patch c clean
      (omega (arith, open_count-le c.rolled_back c.history))
