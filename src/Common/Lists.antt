-- ===== src/Common/Lists.antt =====
-- Lists measured by native numbers, and searched by a Boolean test.
use Prim.Native.Nat.{ℕ, suc}
use mathlib.Core.Path.{◌≡◌, refl, sym, ap, subst, ◌∙◌}
use mathlib.Core.Logic.{◌⊎◌, inl, inr}
use mathlib.Core.Bool.{Bool, true, false, ◌&&◌, ◌||◌}
use mathlib.Core.List.{List, [], ◌∷◌, ◌++◌}
use native.Mathlib.Omega.{arith}
use nsw_srilanka.Common.Tests.{if◌then◌else◌, Bool-cases}

module _ {ℓ} {A : Type ℓ} where
  abbrev pub length : List A → ℕ
  length [] = 0
  length (x ∷ xs) = suc (length xs)

  -- slices.ContainsFunc
  abbrev pub any : (A → Bool) → List A → Bool
  any p [] = false
  any p (x ∷ xs) = p x || any p xs

  abbrev pub all : (A → Bool) → List A → Bool
  all p [] = true
  all p (x ∷ xs) = p x && all p xs

  abbrev pub keep : (A → Bool) → List A → List A
  keep p [] = []
  keep p (x ∷ xs) = let rest = keep p xs in if p x then x ∷ rest else rest

  -- Membership with the place kept.
  pub data In (a : A) : List A → Type ℓ where
    here : {xs : List A} → In a (a ∷ xs)
    there : {x : A} {xs : List A} → In a xs → In a (x ∷ xs)

  pub In-append_left : {a : A} {xs : List A} (ys : List A) → In a xs → In a (xs ++ ys)
  In-append_left ys here = here
  In-append_left ys (there m) = there (In-append_left ys m)

  pub In-append_right : {a : A} (xs : List A) {ys : List A} → In a ys → In a (xs ++ ys)
  In-append_right [] m = m
  In-append_right (x ∷ xs) m = there (In-append_right xs m)

  pub In-append : {a : A} (xs : List A) {ys : List A} → In a (xs ++ ys) → In a xs ⊎ In a ys
  In-append [] m = inr m
  In-append (x ∷ xs) here = inl here
  In-append (x ∷ xs) (there m) = elim (In-append xs m) [ inl l ↦ inl (there l) | inr r ↦ inr r ]

  -- A search that succeeds has found a member that passes.
  pub any-In : (p : A → Bool) (xs : List A) → any p xs ≡ true → (a : A) × In a xs × (p a ≡ true)
  any-In p [] h = cc
  any-In p (x ∷ xs) h = elim (Bool-cases (p x)) [
    | inl e ↦ (x, here, e)
    | inr e ↦ let (a, m, q) = any-In p xs (rw e at h) in (a, there m, q)
  ]

  pub In-any : (p : A → Bool) {a : A} {xs : List A} → In a xs → p a ≡ true → any p xs ≡ true
  In-any p here q = ground arith
  In-any p (there m) q = ground (arith, In-any p m q)

  pub any-append : (p : A → Bool) (xs ys : List A) → any p (xs ++ ys) ≡ (any p xs || any p ys)
  any-append p [] ys = refl
  any-append p (x ∷ xs) ys = ground (arith, any-append p xs ys)

  pub In-cons : {a x : A} {xs : List A} → In a (x ∷ xs) → (a ≡ x) ⊎ In a xs
  In-cons here = inl refl
  In-cons (there m) = inr m

  pub In-keep : (p : A → Bool) {a : A} (xs : List A) → In a (keep p xs) → In a xs × (p a ≡ true)
  In-keep p [] m = elim m [ ]
  In-keep p {a} (x ∷ xs) m = elim (Bool-cases (p x)) [
    | inr e ↦ let (n, q) = In-keep p xs (rw e at m) in (there n, q)
    | inl e ↦ elim (In-cons (rw e at m)) [
      | inl same ↦ (subst (λ y. In y (x ∷ xs)) (sym same) here, ap p same ∙ e)
      | inr n ↦ let (k, q) = In-keep p xs n in (there k, q)
    ]
  ]

  pub keep-In : (p : A → Bool) {a : A} {xs : List A} → In a xs → p a ≡ true → In a (keep p xs)
  keep-In p here q = rw q here
  keep-In p {xs = x ∷ xs} (there m) q = elim (Bool-cases (p x)) [
    | inl e ↦ rw e (there (keep-In p m q))
    | inr e ↦ rw e (keep-In p m q)
  ]

  -- No member stands twice.
  abbrev pub Distinct : List A → Type ℓ
  Distinct [] = Unit
  Distinct (x ∷ xs) = (¬ (In x xs)) × Distinct xs

  pub Distinct-snoc : (xs : List A) (x : A) → Distinct xs → ¬ (In x xs) → Distinct (xs ++ (x ∷ []))
  Distinct-snoc [] x d n = (λ m. elim m [ ], tt)
  Distinct-snoc (y ∷ xs) x d n = (
    λ m. elim (In-append xs m) [
      | inl i ↦ d.0 i
      | inr i ↦ elim (In-cons i) [
        | inl e ↦ n (subst (λ z. In z (y ∷ xs)) e here)
        | inr j ↦ elim j [ ]
      ]
    ],
    Distinct-snoc xs x d.1 (λ m. n (there m)),
  )

  pub keep-Distinct : (p : A → Bool) (xs : List A) → Distinct xs → Distinct (keep p xs)
  keep-Distinct p [] d = d
  keep-Distinct p (x ∷ xs) d = elim (Bool-cases (p x)) [
    | inl e ↦ rw e (λ m. d.0 ((In-keep p xs m).0), keep-Distinct p xs d.1)
    | inr e ↦ rw e (keep-Distinct p xs d.1)
  ]
