-- ===== src/Base/Dict.antt =====
-- JavaScript's `Map` with string keys: entries in the order of first insertion.
use Prim.Native.String.{String}
use mathlib.Core.Path.{◌≡◌, refl, subst}
use mathlib.Core.Logic.{inl, inr}
use mathlib.Core.Option
use mathlib.Core.Option.{Option, none, some}
use mathlib.Core.List.{List, [], ◌∷◌}
use native.Mathlib.Omega.{arith}
use text.Mathlib.TextEquality.{eq_iff}
use pi_roaster.Base.Tests.{◌==◌, string_eq, Bool-cases, if◌then◌else◌}
use pi_roaster.Base.Lists.{All}

abbrev pub Dict {ℓ} : Type ℓ → Type ℓ
Dict V = List (String × V)

module _ {ℓ} {V : Type ℓ} where
  unfoldable pub get : String → Dict V → Option V
  get k [] = none
  get k ((j, v) ∷ m) = if j == k then some v else get k m

  -- A key that is there keeps its place.
  unfoldable pub set : String → V → Dict V → Dict V
  set k v [] = (k, v) ∷ []
  set k v ((j, w) ∷ m) = if j == k then (k, v) ∷ m else (j, w) ∷ set k v m

  unfoldable pub delete : String → Dict V → Dict V
  delete k [] = []
  delete k ((j, w) ∷ m) = let rest = delete k m in if j == k then rest else (j, w) ∷ rest

  unfoldable pub values : Dict V → List V
  values [] = []
  values ((j, w) ∷ m) = w ∷ values m

  pub get-set :
      (k j : String) (v : V) (m : Dict V) → get j (set k v m) ≡ (if k == j then some v else get j m)
  unfolding get set
  get-set k j v [] = refl
  get-set k j v ((i, w) ∷ m) = ground (arith, eq_iff k j, eq_iff i k, eq_iff i j, get-set k j v m)

  pub get-delete :
      (k j : String) (m : Dict V) → get j (delete k m) ≡ (if k == j then none else get j m)
  unfolding get delete
  get-delete k j [] = ground arith
  get-delete k j ((i, w) ∷ m) = ground (arith, eq_iff k j, eq_iff i k, eq_iff i j, get-delete k j m)

  -- What holds of every value holds of a value that is found.
  pub All-get {κ} :
      (P : V → Type κ) (k : String) (m : Dict V) (v : V) → All P (values m) → get k m ≡ some v → P v
  unfolding get values
  All-get P k [] v h e = absurd (ground arith)
  All-get P k ((j, w) ∷ m) v h e = elim (Bool-cases (j == k)) [
    | inl hit ↦ subst P (ground arith) h.0
    | inr miss ↦ All-get P k m v h.1 (ground arith)
  ]

  -- What holds of every value and of a new one still holds of every value.
  pub All-set {κ} :
      (P : V → Type κ) (k : String) (m : Dict V) (v : V)
      → All P (values m)
      → P v
      → All P (values (set k v m))
  unfolding set values
  All-set P k [] v h p = (p, tt)
  All-set P k ((j, w) ∷ m) v h p = elim (Bool-cases (j == k)) [
    | inl hit ↦ rw hit (p, h.1)
    | inr miss ↦ rw miss (h.0, All-set P k m v h.1 p)
  ]

  pub All-delete {κ} :
      (P : V → Type κ) (k : String) (m : Dict V) → All P (values m) → All P (values (delete k m))
  unfolding delete values
  All-delete P k [] h = tt
  All-delete P k ((j, w) ∷ m) h = elim (Bool-cases (j == k)) [
    | inl hit ↦ rw hit (All-delete P k m h.1)
    | inr miss ↦ rw miss (h.0, All-delete P k m h.1)
  ]

module _ {ℓ κ} {V : Type ℓ} {W : Type κ} (f : V → W) where
  unfoldable pub map_values : Dict V → Dict W
  map_values [] = []
  map_values ((k, v) ∷ m) = (k, f v) ∷ map_values m

  pub get-map_values : (k : String) (m : Dict V) → get k (map_values m) ≡ Option.map f (get k m)
  unfolding get map_values
  get-map_values k [] = refl
  get-map_values k ((j, v) ∷ m) = ground (arith, get-map_values k m)

  pub map_values-set :
      (k : String) (v : V) (m : Dict V) → map_values (set k v m) ≡ set k (f v) (map_values m)
  unfolding set map_values
  map_values-set k v [] = refl
  map_values-set k v ((j, w) ∷ m) = ground (arith, map_values-set k v m)
