-- ===== src/Common/Trim.antt =====
-- The laws of strings.TrimSpace, and strings.Split at a one-character separator with its laws.
use Prim.Native.Char.{Char, code}
use Prim.Native.Nat.{ℕ, ◌≤◌}
use Prim.Native.String.append
use Prim.Native.String.{String, ◌++◌}
use mathlib.Core.Path.{◌≡◌, refl, ap, ◌∙◌}
use mathlib.Core.Logic.{inl, inr}
use mathlib.Core.Bool.{true, false, not, ◌&&◌}
use mathlib.Core.List.{List, [], ◌∷◌}
use native.Mathlib.Omega.{arith}
use text.Mathlib.Text.{◌==◌}
use nsw_srilanka.Common.Tests.{eqb, if◌then◌else◌, Bool-cases}
use nsw_srilanka.Common.Lists.{all}
use nsw_srilanka.Common.Text.{
  rune_count, has_char, is_space, trim_left, trim_right, trim_space, cons-eq-empty,
}

trim_right-le : (s : String) → rune_count (trim_right s) ≤ rune_count s
unfolding trim_right
trim_right-le String.[] = omega arith
trim_right-le (String.◌∷◌ c s) = elim (Bool-cases (is_space (code c) && (trim_right s == ""))) [
  | inl y ↦ rw y (omega (arith, trim_right-le s))
  | inr n ↦ rw n (omega (arith, trim_right-le s))
]

trim_left-le : (s : String) → rune_count (trim_left s) ≤ rune_count s
unfolding trim_left
trim_left-le String.[] = omega arith
trim_left-le (String.◌∷◌ c s) = elim (Bool-cases (is_space (code c))) [
  | inl y ↦ rw y (omega (arith, trim_left-le s))
  | inr n ↦ rw n (omega arith)
]

-- A text that trimming leaves alone begins with no space.
pub trimmed_head :
    (c : Char) (s : String)
    → trim_space (String.◌∷◌ c s) ≡ String.◌∷◌ c s
    → is_space (code c) ≡ false
unfolding trim_space
trimmed_head c s h = elim (Bool-cases (is_space (code c))) [
  | inr n ↦ n
  | inl y ↦
      let e : trim_left (String.◌∷◌ c s) ≡ trim_left s = unfold trim_left in rw y in
      let k = ap rune_count h in
      absurd (
        omega
          (arith, k, ap rune_count e, trim_right-le (trim_left (String.◌∷◌ c s)), trim_left-le s))
]

pub trim_left_keeps :
    (c : Char) (s : String)
    → is_space (code c) ≡ false
    → trim_left (String.◌∷◌ c s) ≡ String.◌∷◌ c s
unfolding trim_left
trim_left_keeps c s h = rw h

pub append-eq-empty : (s t : String) → (t == "") ≡ false → (s ++ t == "") ≡ false
append-eq-empty String.[] t h = ap (λ (x : String). x == "") (append.nil t) ∙ h
append-eq-empty (String.◌∷◌ c s) t h =
    ap (λ (x : String). x == "") (append.cons c s t) ∙ cons-eq-empty c (s ++ t)

-- Only the end of a text is trimmed on the right.
pub trim_right-append :
    (s t : String) → trim_right t ≡ t → (t == "") ≡ false → trim_right (s ++ t) ≡ s ++ t
unfolding trim_right
trim_right-append String.[] t h n = rw append.nil h
trim_right-append (String.◌∷◌ c s) t h n =
    let i = trim_right-append s t h n in
    let e : (is_space (code c) && (s ++ t == "")) ≡ false =
      let k = append-eq-empty s t n in ground arith in
    rw (append.cons, i, e)

-- strings.Split
unfoldable pub on_head : Char → List String → List String
on_head c [] = String.◌∷◌ c "" ∷ []
on_head c (p ∷ ps) = String.◌∷◌ c p ∷ ps

unfoldable pub split : ℕ → String → List String
unfolding on_head
split sep String.[] = "" ∷ []
split sep (String.◌∷◌ c s) =
    let rest = split sep s in if eqb (code c) sep then "" ∷ rest else on_head c rest

-- A part without the separator is cut off whole.
pub split-append :
    (sep : ℕ) (c : Char) (p rest : String)
    → eqb (code c) sep ≡ true
    → has_char p sep ≡ false
    → split sep (p ++ String.◌∷◌ c rest) ≡ p ∷ split sep rest
unfolding split
split-append sep c String.[] rest e h = rw (append.nil, e)
split-append sep c (String.◌∷◌ d p) rest e h =
    let k : eqb (code d) sep ≡ false = ground arith in
    let l : has_char p sep ≡ false = ground arith in
    rw (append.cons, k, split-append sep c p rest e l)

pub split_whole : (sep : ℕ) (p : String) → has_char p sep ≡ false → split sep p ≡ p ∷ []
unfolding split
split_whole sep String.[] h = refl
split_whole sep (String.◌∷◌ d p) h =
    let k : eqb (code d) sep ≡ false = ground arith in
    let l : has_char p sep ≡ false = ground arith in rw (k, split_whole sep p l)

pub has_char-split : (sep : ℕ) (s : String) → all (λ p. not (has_char p sep)) (split sep s) ≡ true
unfolding split on_head
has_char-split sep String.[] = refl
has_char-split sep (String.◌∷◌ c s) = elim (Bool-cases (eqb (code c) sep)) [
  | inl y ↦ rw y (has_char-split sep s)
  | inr n ↦ rw n (on n (split sep s) (has_char-split sep s))
]
  where
    on :
        eqb (code c) sep ≡ false
        → (ps : List String) → all (λ p. not (has_char p sep)) ps ≡ true
        → all (λ p. not (has_char p sep)) (on_head c ps) ≡ true
    on n [] h = rw n
    on n (p ∷ ps) h = rw n h

pub has_char-trim_space :
    (n : ℕ) (s : String) → has_char s n ≡ false → has_char (trim_space s) n ≡ false
unfolding trim_space
has_char-trim_space n s h = right (trim_left s) (left s h)
  where
    left : (t : String) → has_char t n ≡ false → has_char (trim_left t) n ≡ false
    left String.[] k = k
    left (String.◌∷◌ c t) k = elim (Bool-cases (is_space (code c))) [
      | inl y ↦ unfold trim_left in rw y (left t (ground arith))
      | inr z ↦ unfold trim_left in rw z k
    ]

    right : (t : String) → has_char t n ≡ false → has_char (trim_right t) n ≡ false
    right String.[] k = k
    right (String.◌∷◌ c t) k = elim (Bool-cases (is_space (code c) && (trim_right t == ""))) [
      | inl y ↦ unfold trim_right in rw y (right t (ground arith))
      | inr z ↦ unfold trim_right in rw z (let i = right t (ground arith) in ground arith)
    ]

trim_left_idem : (s : String) → trim_left (trim_left s) ≡ trim_left s
unfolding trim_left
trim_left_idem String.[] = refl
trim_left_idem (String.◌∷◌ c s) = elim (Bool-cases (is_space (code c))) [
  | inl y ↦ unfold trim_left in rw y (trim_left_idem s)
  | inr z ↦ unfold trim_left in rw z (unfold trim_left in rw z)
]

trim_right_idem : (s : String) → trim_right (trim_right s) ≡ trim_right s
unfolding trim_right
trim_right_idem String.[] = refl
trim_right_idem (String.◌∷◌ c s) = elim (Bool-cases (is_space (code c) && (trim_right s == ""))) [
  | inl y ↦ rw y (trim_right_idem s)
  | inr z ↦ rw z (let i = trim_right_idem s in rw (i, z))
]

trim_left-trim_right : (t : String) → trim_left t ≡ t → trim_left (trim_right t) ≡ trim_right t
unfolding trim_right trim_left
trim_left-trim_right String.[] h = refl
trim_left-trim_right (String.◌∷◌ c s) h = elim (Bool-cases (is_space (code c))) [
  | inl y ↦
      let e : trim_left (String.◌∷◌ c s) ≡ trim_left s = unfold trim_left in rw y in
      absurd (omega (arith, ap rune_count e, ap rune_count h, trim_left-le s))
  | inr z ↦ unfold trim_right in rw z (trim_left_keeps c (trim_right s) z)
]

pub trim_space_idem : (s : String) → trim_space (trim_space s) ≡ trim_space s
unfolding trim_space
trim_space_idem s =
    rw (trim_left-trim_right (trim_left s) (trim_left_idem s)) (trim_right_idem (trim_left s))
