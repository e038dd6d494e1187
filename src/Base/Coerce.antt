-- ===== src/Base/Coerce.antt =====
-- What the readers of event payloads share (packages/brewva-runtime/src/utils/coerce.ts).
use Prim.Native.String.{String}
use mathlib.Core.Path.{◌≡◌, refl, ap, sym, ◌∙◌}
use mathlib.Core.Bool.{not}
use mathlib.Core.Logic.{inl, inr}
use mathlib.Core.Option.{Option, none, some}
use mathlib.Core.List.{List, [], ◌∷◌, map}
use pi_roaster.Base.Tests.{◌==◌, string_eq, Bool-cases}
use pi_roaster.Base.Lists.{keep}
use pi_roaster.Base.Text.{trim, trim_idem, normalize_optional, normalize_optional_idem}

-- A reader that gives up where a field is missing.
infixl 5 ◌>>=◌
abbrev pub ◌>>=◌ {ℓ κ} : {A : Type ℓ} {B : Type κ} → Option A → (A → Option B) → Option B
none >>= k = none
some a >>= k = k a

-- `normalizeStringArray`, with `[]` for nothing.
unfoldable pub normalize_string_array : List String → List String
normalize_string_array ids = keep (λ s. not (s == "")) (map trim ids)

-- What holds of a value that may be absent, where it is there.
abbrev pub Holds {ℓ κ} : {A : Type ℓ} → (A → Type κ) → Option A → Type κ
Holds P none = Unit
Holds P (some a) = P a

pub Holds-bind {ℓ κ μ} :
    {A : Type ℓ} {B : Type κ} (P : B → Type μ) (o : Option A) (k : A → Option B)
    → ((a : A) → o ≡ some a → Holds P (k a))
    → Holds P (o >>= k)
Holds-bind P none k h = tt
Holds-bind P (some a) k h = h a refl

-- A text that is not blank and has no space at its ends.
abbrev pub IsTrimmed : String → Type 0
IsTrimmed s = normalize_optional (some s) ≡ some s

pub trim-IsTrimmed :
    (raw : Option String) (s : String) → normalize_optional raw ≡ some s → IsTrimmed s
trim-IsTrimmed raw s e = ap normalize_optional (sym e) ∙ normalize_optional_idem raw ∙ e

pub normalize_string_array_idem :
    (ids : List String)
    → normalize_string_array (normalize_string_array ids) ≡ normalize_string_array ids
unfolding normalize_string_array keep
normalize_string_array_idem [] = refl
normalize_string_array_idem (id ∷ ids) = elim (Bool-cases (trim id == "")) [
  | inl blank ↦ rw blank (normalize_string_array_idem ids)
  | inr other ↦
      rw other
        (rw (trim_idem id) (rw other (ap (λ l. trim id ∷ l) (normalize_string_array_idem ids))))
]
