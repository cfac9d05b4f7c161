-- ===== src/Document/Laws.antt =====
-- ParseReference reads back what String writes: asycuda/document/document.go.
use Prim.Native.Char.{code}
use Prim.Native.String.append
use Prim.Native.String.{◌++◌}
use nsw_srilanka.Common.{
  ℕ, suc, ◌≤◌, String, ◌==◌, true, false, not, Option, none, some, List, [], ◌∷◌, ◌≡◌, refl, ap,
  subst, ◌+◌, ◌∙◌, inl, inr, Bool-cases, Option-cases, leb, eqb, has_char, trim_space, trim_right,
  all, arith,
}
use nsw_srilanka.Common.Decimal.{
  max_int, decimal, scan, scan-digits, has_char-digits, digits-IsTrimmed, atoi, unsigned, negated,
  up_to,
}
use nsw_srilanka.Common.Trim.{
  split, split-append, split_whole, trim_right-append, trimmed_head, trim_left_keeps,
  append-eq-empty, has_char-split, has_char-trim_space, trim_space_idem,
}
use nsw_srilanka.Document.{
  Reference, is_valid, format_reference, trimmed, parsed, read_parts, parse_reference,
}

-- An element as it stands between two slashes of a display form: trimmed, and without a slash.
pub record IsElement (s : String) : Type 0 where
  pub trimmed : trim_space s ≡ s
  pub whole : has_char s b'/' ≡ false

-- A reference that a display form can name.
pub record IsCanonical (r : Reference) : Type 0 where
  pub valid : is_valid r ≡ true
  pub office : IsElement r.office
  pub year : IsElement r.year
  pub serial : IsElement r.serial
  pub in_range : r.number ≤ max_int

slash_number : (n : ℕ) → has_char (decimal n) b'/' ≡ false
unfolding decimal
slash_number n = has_char-digits b'/' (suc n) n "" refl (omega arith)

decimal_trimmed : (n : ℕ) → trim_space (decimal n) ≡ decimal n
unfolding decimal trim_space
decimal_trimmed n = let (a, b, c) = digits-IsTrimmed (suc n) n "" (omega arith) refl in rw (a, b)

-- Atoi reads back a number that fits an int.
atoi-decimal : (n : ℕ) → n ≤ max_int → atoi (decimal n) ≡ some n
unfolding trim_right scan
atoi-decimal n h =
    let (a, b, c) = digits-IsTrimmed (suc n) n "" (omega arith) refl in
    let p = has_char-digits 45 (suc n) n "" refl (omega arith) in
    let q = has_char-digits 43 (suc n) n "" refl (omega arith) in
    go (decimal n) (unfold decimal in c) (unfold decimal in p) (unfold decimal in q)
      (unfold decimal in scan-digits (suc n) n "" (omega arith))
  where
    go :
        (s : String)
        → (s == "") ≡ false
        → has_char s 45 ≡ false
        → has_char s 43 ≡ false
        → scan s 0 ≡ some n
        → atoi s ≡ some n
    go String.[] e p q r = absurd (cc)
    go (String.◌∷◌ c s) e p q r =
        let x : eqb (code c) 45 ≡ false = ground arith in
        let y : eqb (code c) 43 ≡ false = ground arith in
        let z : leb n max_int ≡ true = ground arith in unfold atoi in rw (x, y, r, z)

split_slash :
    (p rest : String)
    → has_char p b'/' ≡ false
    → split b'/' (p ++ ("/" ++ rest)) ≡ p ∷ split b'/' rest
split_slash p rest h =
    let e : "/" ++ rest ≡ String.◌∷◌ "/" rest =
      append.cons "/" "" rest ∙ ap (String.◌∷◌ "/") (append.nil rest) in
    rw e (split-append b'/' "/" p rest refl h)

-- The four parts of a display form.
format_parts :
    (r : Reference)
    → IsCanonical r
    → split b'/' (format_reference r) ≡ r.office ∷ r.year ∷ r.serial ∷ decimal r.number ∷ []
unfolding format_reference
format_parts r c = rw (
  split_slash r.office _ c.office.whole,
  split_slash r.year _ c.year.whole,
  split_slash r.serial _ c.serial.whole,
  split_whole b'/' (decimal r.number) (slash_number r.number),
)

-- A text that trimming leaves alone at its end, and that is not empty.
abbrev Ends : String → Type 0
Ends t = (trim_right t ≡ t) × ((t == "") ≡ false)

append-Ends : (s t : String) → Ends t → Ends (s ++ t)
append-Ends s t (p, q) = (trim_right-append s t p q, append-eq-empty s t q)

decimal-Ends : (n : ℕ) → Ends (decimal n)
unfolding decimal trim_right
decimal-Ends n = let (a, b, c) = digits-IsTrimmed (suc n) n "" (omega arith) refl in (b, c)

trim_space-append :
    (s t : String) → trim_space s ≡ s → (s == "") ≡ false → Ends t → trim_space (s ++ t) ≡ s ++ t
trim_space-append String.[] t h n p = absurd (cc)
trim_space-append (String.◌∷◌ d s) t h n (p, q) =
    let e = trim_left_keeps d (s ++ t) (trimmed_head d s h) in
    let f = trim_right-append (String.◌∷◌ d s) t p q in
    unfold trim_space in rw (append.cons, e) (rw append.cons at f)

format_trimmed :
    (r : Reference) → IsCanonical r → trim_space (format_reference r) ≡ format_reference r
unfolding format_reference
format_trimmed r c =
    let n = decimal-Ends r.number in
    trim_space-append r.office _ c.office.trimmed (let v = c.valid in ground arith) (
      append-Ends "/" _
        (append-Ends r.year _ (append-Ends "/" _ (append-Ends r.serial _ (append-Ends "/" _ n)))))

-- The display form of a canonical reference, one whose elements are trimmed and hold no slash and
-- whose number fits an int, is read back as that reference.
pub parse_reference-format :
    (r : Reference) → IsCanonical r → parse_reference (format_reference r) ≡ parsed r
unfolding parse_reference read_parts
parse_reference-format r c =
    let n : atoi (trim_space (decimal r.number)) ≡ some r.number =
      rw (decimal_trimmed r.number) (atoi-decimal r.number c.in_range) in
    rw (
      format_trimmed r c,
      format_parts r c,
      n,
      c.office.trimmed,
      c.year.trimmed,
      c.serial.trimmed,
      c.valid,
    )

up_to-le : (b : ℕ) (o : Option ℕ) (n : ℕ) → up_to b o ≡ some n → n ≤ b
up_to-le b none n h = absurd (cc)
up_to-le b (some m) n h = ground arith

unsigned-le : (b : ℕ) (s : String) (n : ℕ) → unsigned b s ≡ some n → n ≤ b
unsigned-le b String.[] n h = absurd (cc)
unsigned-le b (String.◌∷◌ c s) n h = up_to-le b (scan (String.◌∷◌ c s) 0) n h

negated-zero : (o : Option ℕ) (n : ℕ) → negated o ≡ some n → n ≡ 0
negated-zero none n h = absurd (cc)
negated-zero (some m) n h = ground arith

-- What Atoi accepts is in the range of an int.
atoi-le : (s : String) (n : ℕ) → atoi s ≡ some n → n ≤ max_int
unfolding atoi
atoi-le String.[] n h = absurd (cc)
atoi-le (String.◌∷◌ c s) n h = elim (Bool-cases (eqb (code c) 45)) [
  | inl y ↦ omega (arith, negated-zero (unsigned (max_int + 1) s) n (rw y at h))
  | inr z ↦ elim (Bool-cases (eqb (code c) 43)) [
    | inl y ↦ unsigned-le max_int s n (rw (z, y) at h)
    | inr x ↦ unsigned-le max_int (String.◌∷◌ c s) n (rw (z, x) at h)
  ]
]

part-IsElement : (p : String) → not (has_char p b'/') ≡ true → IsElement (trim_space p)
part-IsElement p h = record {
  trimmed = trim_space_idem p;
  whole = has_char-trim_space b'/' p (ground arith);
}

read_parts-IsCanonical :
    (ps : List String) (r : Reference)
    → all (λ p. not (has_char p b'/')) ps ≡ true
    → read_parts ps ≡ parsed r
    → IsCanonical r
unfolding read_parts
read_parts-IsCanonical (a ∷ b ∷ c ∷ d ∷ []) r l h = elim (Option-cases (atoi (trim_space d))) [
  | inl e ↦ absurd (let k = rw e at h in cc)
  | inr (n, e) ↦
      let k = rw e at h in
      elim (Bool-cases (is_valid (trimmed a b c n))) [
        | inl v ↦
            let (p, q, s) : (not (has_char a b'/') ≡ true)
                × (not (has_char b b'/') ≡ true)
                × (not (has_char c b'/') ≡ true) =
              ground arith in
            subst IsCanonical (let m = rw v at k in cc) (record {
              valid = v;
              office = part-IsElement a p;
              year = part-IsElement b q;
              serial = part-IsElement c s;
              in_range = atoi-le (trim_space d) n e;
            })
        | inr v ↦ absurd (let m = rw v at k in cc)
      ]
]
read_parts-IsCanonical [] r l h = absurd (cc)
read_parts-IsCanonical (a ∷ []) r l h = absurd (cc)
read_parts-IsCanonical (a ∷ b ∷ []) r l h = absurd (cc)
read_parts-IsCanonical (a ∷ b ∷ c ∷ []) r l h = absurd (cc)
read_parts-IsCanonical (a ∷ b ∷ c ∷ d ∷ e ∷ f) r l h = absurd (cc)

-- A text that is accepted, however it is spaced, gives a canonical reference, which its display
-- form gives too.
pub parse_reference-IsCanonical :
    (s : String) (r : Reference)
    → parse_reference s ≡ parsed r
    → IsCanonical r × (parse_reference (format_reference r) ≡ parsed r)
unfolding parse_reference
parse_reference-IsCanonical s r h =
    let c =
      read_parts-IsCanonical (split b'/' (trim_space s)) r (has_char-split b'/' (trim_space s)) h in
    (c, parse_reference-format r c)
