-- ===== src/Common/Text.antt =====
-- Texts: the order of sort.Strings, and the functions of package strings that the code calls.
use Prim.Native.Char.{Char, code}
use Prim.Native.Nat.{ℕ, suc}
use Prim.Native.String.compare
use Prim.Native.String.{String}
use mathlib.Core.Path.{◌≡◌, ap, subst}
use mathlib.Core.Logic.{◌≢◌, inl, inr}
use mathlib.Core.Bool.{Bool, true, false, ◌&&◌, ◌||◌}
use mathlib.Core.List.{List}
use text.Mathlib.Text.{is_eq, ◌==◌}
use text.Mathlib.TextEquality.{eq_iff}
use text.Mathlib.TextPositions.{eq_refl}
use nsw_srilanka.Common.Tests.{ltb, leb, eqb, if◌then◌else◌, Bool-cases}
use nsw_srilanka.Common.Lists.{any, In, any-In, In-any}

-- Byte order of UTF-8 is the order of code points.
abbrev pub str_leb : String → String → Bool
str_leb String.[] t = true
str_leb (String.◌∷◌ c s) String.[] = false
str_leb (String.◌∷◌ c s) (String.◌∷◌ d t) =
    ltb (code c) (code d) || (eqb (code c) (code d) && str_leb s t)

-- slices.Contains
abbrev pub contains : List String → String → Bool
contains xs k = any (λ x. x == k) xs

-- strings.Contains of a one-character text, by its code
abbrev pub has_char : String → ℕ → Bool
has_char String.[] n = false
has_char (String.◌∷◌ c s) n = eqb (code c) n || has_char s n

-- unicode.IsSpace
abbrev pub is_space : ℕ → Bool
is_space n =
    (leb 9 n && leb n 13)
    || eqb n 32
    || eqb n 133
    || eqb n 160
    || eqb n 0x1680
    || (leb 0x2000 n && leb n 0x200a)
    || eqb n 0x2028
    || eqb n 0x2029
    || eqb n 0x202f
    || eqb n 0x205f
    || eqb n 0x3000

-- strings.TrimSpace
unfoldable pub trim_left : String → String
trim_left String.[] = String.[]
trim_left (String.◌∷◌ c s) =
    let rest = trim_left s in if is_space (code c) then rest else String.◌∷◌ c s

unfoldable pub trim_right : String → String
trim_right String.[] = String.[]
trim_right (String.◌∷◌ c s) =
    let rest = trim_right s in if is_space (code c) && (rest == "") then rest else String.◌∷◌ c rest

unfoldable pub trim_space : String → String
unfolding trim_left trim_right
trim_space s = trim_right (trim_left s)

-- strings.TrimSpace(s) == ""
unfoldable pub is_blank : String → Bool
unfolding trim_space
is_blank s = trim_space s == ""

-- utf8.RuneCountInString
abbrev pub rune_count : String → ℕ
rune_count String.[] = 0
rune_count (String.◌∷◌ c s) = suc (rune_count s)

pub cons-eq-empty : (c : Char) (s : String) → (String.◌∷◌ c s == "") ≡ false
cons-eq-empty c s = ap is_eq (compare.cons-nil c s)

-- Membership as the test `contains` decides it.
pub contains-In : (xs : List String) (k : String) → contains xs k ≡ true → In k xs
contains-In xs k h =
    let (x, m, p) = any-In (λ x. x == k) xs h in subst (λ y. In y xs) ((eq_iff x k).0 p) m

pub In-contains : {xs : List String} {k : String} → In k xs → contains xs k ≡ true
In-contains {xs} {k} m = In-any (λ x. x == k) m (eq_refl k)

pub not_contains : (xs : List String) (k : String) → contains xs k ≡ false → ¬ (In k xs)
not_contains xs k h m = let e = In-contains m in cc

pub contains_not : (xs : List String) (k : String) → ¬ (In k xs) → contains xs k ≡ false
contains_not xs k h = elim (Bool-cases (contains xs k)) [
  | inr e ↦ e
  | inl e ↦ absurd (h (contains-In xs k e))
]

pub differ : (s t : String) → s ≢ t → (s == t) ≡ false
differ s t d = elim (Bool-cases (s == t)) [ inl q ↦ absurd (d ((eq_iff s t).0 q)) | inr q ↦ q ]
