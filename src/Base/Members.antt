-- ===== src/Base/Members.antt =====
-- JavaScript's `Set` of strings: members in the order of insertion.
use Prim.Native.Nat.{suc, ◌≤◌}
use Prim.Native.String.{String}
use mathlib.Core.Path.{◌≡◌, refl}
use mathlib.Core.Bool.{Bool, true, false, ◌||◌}
use mathlib.Core.List.{List, [], ◌∷◌, ◌++◌}
use native.Mathlib.Omega.{arith}
use text.Mathlib.TextEquality.{eq_iff}
use pi_roaster.Base.Tests.{◌==◌, string_eq, if◌then◌else◌}
use pi_roaster.Base.Lists.{length}

unfoldable pub has : String → List String → Bool
has k [] = false
has k (j ∷ m) = j == k || has k m

unfoldable pub add : String → List String → List String
unfolding has
add k m = if has k m then m else m ++ k ∷ []

-- The members of a list, added in turn.
unfoldable pub add_all : List String → List String → List String
unfolding add
add_all [] m = m
add_all (k ∷ ks) m = add_all ks (add k m)

unfoldable pub delete : String → List String → List String
delete k [] = []
delete k (j ∷ m) = let rest = delete k m in if j == k then rest else j ∷ rest

-- No member is listed twice, as in any set.
abbrev pub Distinct : List String → Type 0
Distinct [] = Unit
Distinct (j ∷ m) = (has j m ≡ false) × Distinct m

pub has-append : (k : String) (m n : List String) → has k (m ++ n) ≡ (has k m || has k n)
unfolding has
has-append k [] n = refl
has-append k (j ∷ m) n = ground (arith, has-append k m n)

pub has-delete :
    (k j : String) (m : List String) → has j (delete k m) ≡ (if k == j then false else has j m)
unfolding has delete
has-delete k j [] = ground arith
has-delete k j (i ∷ m) = ground (arith, eq_iff k j, eq_iff i k, eq_iff i j, has-delete k j m)

pub length-delete-le : (k : String) (m : List String) → length (delete k m) ≤ length m
unfolding delete
length-delete-le k [] = omega arith
length-delete-le k (j ∷ m) = ground (arith, length-delete-le k m)

pub delete-Distinct : (k : String) (m : List String) → Distinct m → Distinct (delete k m)
unfolding delete
delete-Distinct k [] h = tt
delete-Distinct k (j ∷ m) h = ground (arith, delete-Distinct k m h.1, has-delete k j m, eq_iff k j)

pub snoc-Distinct :
    (k : String) (m : List String) → has k m ≡ false → Distinct m → Distinct (m ++ k ∷ [])
unfolding has
snoc-Distinct k [] n h = (refl, tt)
snoc-Distinct k (j ∷ m) n h =
    ground (arith, snoc-Distinct k m, has-append j m (k ∷ []), eq_iff j k, eq_iff k j)

pub length-delete_absent : (k : String) (m : List String) → has k m ≡ false → delete k m ≡ m
unfolding has delete
length-delete_absent k [] h = refl
length-delete_absent k (j ∷ m) h = ground (arith, length-delete_absent k m)

-- A member of a set is removed once.
pub length-delete_member :
    (k : String) (m : List String)
    → Distinct m
    → has k m ≡ true
    → suc (length (delete k m)) ≡ length m
unfolding has delete
length-delete_member k [] d h = cc
length-delete_member k (j ∷ m) d h =
    ground (arith, eq_iff j k, length-delete_absent k m, length-delete_member k m d.1)

pub has-add : (k j : String) (m : List String) → has j (add k m) ≡ (k == j || has j m)
unfolding add has
has-add k j m = ground (arith, has-append j m (k ∷ []), eq_iff k j)

pub has-add_all : (j : String) (ks m : List String) → has j (add_all ks m) ≡ (has j ks || has j m)
unfolding add_all has
has-add_all j [] m = refl
has-add_all j (k ∷ ks) m = ground (arith, has-add_all j ks (add k m), has-add k j m)

-- A set of at most one member has no two that differ.
pub single_member :
    (j k : String) (m : List String) → length m ≤ 1 → has j m ≡ true → has k m ≡ true → j ≡ k
unfolding has
single_member j k [] l p q = absurd (ground (arith, p))
single_member j k (i ∷ []) l p q = ground (arith, eq_iff i j, eq_iff i k)
single_member j k (i ∷ i' ∷ m) l p q = absurd (omega arith)
