-- ===== src/Common/Decimal.antt =====
-- Decimal numbers as Go writes and reads them: %d of fmt, and strconv.Atoi.
use Prim.Native.Char.{Char, code}
use Prim.Native.Nat.{ℕ, zero, suc, ◌+◌, ◌-◌, ◌*◌, ◌/◌, ◌%◌, ◌<◌}
use Prim.Native.String.{String, char_at}
use mathlib.Core.Path.{◌≡◌, ap, subst, ◌∙◌}
use mathlib.Core.Logic.{inl, inr}
use mathlib.Core.Bool.{Bool, true, false, ◌&&◌}
use mathlib.Core.Option.{Option, none, some}
use native.Mathlib.Omega.{arith}
use text.Mathlib.Text.{◌==◌}
use nsw_srilanka.Common.Tests.{ltb, leb, eqb, if◌then◌else◌, Bool-cases}
use nsw_srilanka.Common.Text.{has_char, is_space, trim_left, trim_right, cons-eq-empty}

abbrev pub max_int : ℕ
max_int = 9223372036854775807

digit_char : ℕ → Char
digit_char d = char_at "0123456789" d

-- The predicate holds of each smaller number.
Below : (ℕ → Type 0) → ℕ → Type 0
Below P zero = Unit
Below P (suc n) = P n × Below P n

Below-at : (P : ℕ → Type 0) (n d : ℕ) → Below P n → d < n → P d
unfolding Below
Below-at P zero d h l = elim l [ ]
Below-at P (suc n) d (last, rest) l = elim (Bool-cases (eqb n d)) [
  | inl y ↦ let e : n ≡ d = ground arith in subst P e last
  | inr z ↦ Below-at P n d rest (ground arith)
]

code-digit_char : (d : ℕ) → d < 10 → code (digit_char d) ≡ 48 + d
unfolding Below digit_char
code-digit_char d h = Below-at (λ k. code (digit_char k) ≡ 48 + k) 10 d (omega arith) h

-- The digits of a number in front of a text; fuel above the number is enough.
unfoldable pub digits : ℕ → ℕ → String → String
unfolding digit_char
digits zero n out = out
digits (suc fuel) n out =
    let rest = digits fuel (n / 10) (String.◌∷◌ (digit_char (n % 10)) out) in
    if ltb n 10 then String.◌∷◌ (digit_char n) out else rest

-- fmt's %d
unfoldable pub decimal : ℕ → String
unfolding digits
decimal n = digits (suc n) n ""

abbrev pub is_digit : ℕ → Bool
is_digit c = leb 48 c && leb c 57

-- The number that digits spell behind `n`.
unfoldable pub scan : String → ℕ → Option ℕ
scan String.[] n = some n
scan (String.◌∷◌ c s) n =
    let rest = scan s (n * 10 + (code c - 48)) in if is_digit (code c) then rest else none

abbrev pub up_to : ℕ → Option ℕ → Option ℕ
up_to bound none = none
up_to bound (some n) = if leb n bound then some n else none

abbrev pub negated : Option ℕ → Option ℕ
negated none = none
negated (some n) = some 0

abbrev pub unsigned : ℕ → String → Option ℕ
unsigned bound String.[] = none
unsigned bound (String.◌∷◌ c s) = up_to bound (scan (String.◌∷◌ c s) 0)

-- strconv.Atoi on a 64-bit machine; a number that is not positive is 0.
unfoldable pub atoi : String → Option ℕ
unfolding scan
atoi String.[] = none
atoi (String.◌∷◌ c s) =
    if eqb (code c) 45
    then negated (unsigned (max_int + 1) s)
    else if eqb (code c) 43
    then unsigned max_int s
    else unsigned max_int (String.◌∷◌ c s)

scan-digit_char :
    (d n : ℕ) (out : String)
    → d < 10
    → scan (String.◌∷◌ (digit_char d) out) n ≡ scan out (n * 10 + d)
unfolding scan
scan-digit_char d n out h =
    let e = code-digit_char d h in
    let k : is_digit (code (digit_char d)) ≡ true = ground arith in
    let v : n * 10 + (code (digit_char d) - 48) ≡ n * 10 + d = omega arith in rw (k, v)

pub scan-digits : (f n : ℕ) (out : String) → n < f → scan (digits f n out) 0 ≡ scan out n
unfolding digits
scan-digits zero n out h = absurd (omega arith)
scan-digits (suc f) n out h = elim (Bool-cases (ltb n 10)) [
  | inl y ↦
      let b : n < 10 = ground arith in
      let v : 0 * 10 + n ≡ n = omega arith in rw y (scan-digit_char n 0 out b ∙ ap (scan out) v)
  | inr z ↦
      let a : n / 10 < f = ground arith in
      let v : n / 10 * 10 + n % 10 ≡ n = omega arith in
      rw z (
        scan-digits f (n / 10) (String.◌∷◌ (digit_char (n % 10)) out) a
        ∙ scan-digit_char (n % 10) (n / 10) out (omega arith)
        ∙ ap (scan out) v)
]

-- The digits of a number hold none of the characters that are no digits.
pub has_char-digits :
    (k f n : ℕ) (out : String)
    → is_digit k ≡ false
    → n < f
    → has_char (digits f n out) k ≡ has_char out k
unfolding digits
has_char-digits k zero n out d h = absurd (omega arith)
has_char-digits k (suc f) n out d h = elim (Bool-cases (ltb n 10)) [
  | inl y ↦ rw y (other n (ground arith))
  | inr z ↦ rw z (
      has_char-digits k f (n / 10) (String.◌∷◌ (digit_char (n % 10)) out) d (ground arith)
      ∙ other (n % 10) (omega arith))
]
  where
    other : (m : ℕ) → m < 10 → has_char (String.◌∷◌ (digit_char m) out) k ≡ has_char out k
    other m l =
        let c = code-digit_char m l in
        let e : eqb (code (digit_char m)) k ≡ false = ground arith in rw e

not_space : (d : ℕ) → d < 10 → is_space (code (digit_char d)) ≡ false
not_space d h = let c = code-digit_char d h in ground arith

-- Digits are not trimmed away.
pub digits-IsTrimmed :
    (f n : ℕ) (out : String)
    → n < f
    → trim_right out ≡ out
    → (trim_left (digits f n out) ≡ digits f n out)
      × (trim_right (digits f n out) ≡ digits f n out)
      × ((digits f n out == "") ≡ false)
unfolding digits
digits-IsTrimmed zero n out h t = absurd (omega arith)
digits-IsTrimmed (suc f) n out h t = elim (Bool-cases (ltb n 10)) [
  | inl y ↦
      let s = not_space n (ground arith) in
      rw y (unfold trim_left in rw s, unfold trim_right in rw (s, t), cons-eq-empty _ out)
  | inr z ↦
      let s = not_space (n % 10) (omega arith) in
      rw z (
        digits-IsTrimmed f (n / 10) (String.◌∷◌ (digit_char (n % 10)) out) (ground arith)
          (unfold trim_right in rw (s, t)))
]
