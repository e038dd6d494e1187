-- ===== src/Base/Text.antt =====
-- What the program uses of JavaScript's strings: `trim`, `toLowerCase` and concatenation.
use Prim.Native.Char.{Char, code}
use Prim.Native.String.{[], ◌∷◌}
use Prim.Native.Nat.{ℕ, zero, suc, ◌-◌}
pub use Prim.Native.String.{◌++◌}
use Prim.Native.String.{String}
use mathlib.Core.Path.{◌≡◌, refl, ap, ◌∙◌}
use mathlib.Core.Bool.{Bool, false, ◌||◌, ◌&&◌}
use mathlib.Core.Option.{Option, none, some}
use mathlib.Core.Logic.{inl, inr}
use pi_roaster.Base.Tests.{Bool-cases, leb, ◌==◌, nat_eq, string_eq, if◌then◌else◌}

-- White space and line terminators of ECMAScript, which `trim` removes.
is_space : ℕ → Bool
is_space c =
    leb 9 c && leb c 13
    || c == 32
    || c == 0xa0
    || c == 0x1680
    || leb 0x2000 c && leb c 0x200a
    || c == 0x2028
    || c == 0x2029
    || c == 0x202f
    || c == 0x205f
    || c == 0x3000
    || c == 0xfeff

trim_start : String → String
trim_start [] = []
trim_start (c ∷ s) = let rest = trim_start s in if is_space (code c) then rest else c ∷ s

drop_space : Char → String → String
drop_space c [] = if is_space (code c) then [] else c ∷ []
drop_space c (d ∷ s) = c ∷ d ∷ s

trim_end : String → String
unfolding drop_space
trim_end [] = []
trim_end (c ∷ s) = drop_space c (trim_end s)

unfoldable pub trim : String → String
unfolding trim_start trim_end is_space
trim s = trim_end (trim_start s)

-- A text that is `undefined` or blank becomes `undefined`, and any other is trimmed.
unfoldable pub normalize_optional : Option String → Option String
normalize_optional none = none
normalize_optional (some s) = let t = trim s in if t == "" then none else some t

trim_example : trim " a b\n" ≡ "a b"
unfolding trim
trim_example = refl

trim_end-drop_space :
    (c : Char) (s : String) → trim_end s ≡ s → trim_end (drop_space c s) ≡ drop_space c s
unfolding trim_end
trim_end-drop_space c [] e = elim (Bool-cases (is_space (code c))) [
  | inl space ↦ rw (space, drop_space) refl
  | inr other ↦ rw (other, drop_space) (rw other)
]
trim_end-drop_space c (d ∷ s) e = ap (drop_space c) e

trim_end_idem : (s : String) → trim_end (trim_end s) ≡ trim_end s
unfolding trim_end
trim_end_idem [] = refl
trim_end_idem (c ∷ s) = trim_end-drop_space c (trim_end s) (trim_end_idem s)

drop_space_keeps : (c : Char) (s : String) → is_space (code c) ≡ false → drop_space c s ≡ c ∷ s
unfolding drop_space
drop_space_keeps c [] e = rw e
drop_space_keeps c (d ∷ s) e = refl

trim_start-trim_end : (s : String) → trim_start (trim_end (trim_start s)) ≡ trim_end (trim_start s)
unfolding trim_start trim_end
trim_start-trim_end [] = refl
trim_start-trim_end (c ∷ s) = elim (Bool-cases (is_space (code c))) [
  | inl space ↦ rw space (trim_start-trim_end s)
  | inr other ↦ rw (other, drop_space_keeps c (trim_end s) other) (rw other)
]

-- A text that was trimmed stays as it is.
pub trim_idem : (s : String) → trim (trim s) ≡ trim s
unfolding trim
trim_idem s = ap trim_end (trim_start-trim_end s) ∙ trim_end_idem (trim_start s)

pub normalize_optional_idem :
    (o : Option String) → normalize_optional (normalize_optional o) ≡ normalize_optional o
unfolding normalize_optional
normalize_optional_idem none = refl
normalize_optional_idem (some s) = elim (Bool-cases (trim s == "")) [
  | inl blank ↦ rw blank refl
  | inr other ↦ rw (other, trim_idem s) (rw other)
]

-- The letters A to Z in lower case: tool names are ASCII.
letter_at : ℕ → String → Char → Char
letter_at n [] c = c
letter_at zero (d ∷ s) c = d
letter_at (suc n) (d ∷ s) c = letter_at n s c

lower_char : Char → Char
unfolding letter_at
lower_char c =
    if leb b'A' (code c) && leb (code c) b'Z'
    then letter_at (code c - b'A') "abcdefghijklmnopqrstuvwxyz" c
    else c

unfoldable pub to_lower_case : String → String
unfolding lower_char
to_lower_case [] = []
to_lower_case (c ∷ s) = lower_char c ∷ to_lower_case s

to_lower_case_example : to_lower_case "Exec_2" ≡ "exec_2"
unfolding to_lower_case
to_lower_case_example = refl
