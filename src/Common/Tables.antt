-- ===== src/Common/Tables.antt =====
-- Database tables as lists of rows, in the order of a text key: the queries and writes that the
-- repositories make, and what a write leaves.
pub mod Replacing
use Prim.Native.String.{String}
use mathlib.Core.Path.{◌≡◌, refl, sym, ap, subst, ◌∙◌}
use mathlib.Core.Logic.{◌⊎◌, inl, inr}
use mathlib.Core.Bool.{Bool, true, false}
use mathlib.Core.Option.{Option, none, some}
use mathlib.Core.List.{List, [], ◌∷◌}
use native.Mathlib.Omega.{arith}
use text.Mathlib.Text.{◌==◌}
use text.Mathlib.TextEquality.{eq_iff}
use nsw_srilanka.Common.Tests.{if◌then◌else◌, Bool-cases}
use nsw_srilanka.Common.Lists.{In, here, there, In-cons, any, Distinct}
use nsw_srilanka.Common.Text.{str_leb}

module _ {ℓ} {A : Type ℓ} where
  -- SELECT … WHERE p ORDER BY the key LIMIT 1
  unfoldable pub first_row : (A → Bool) → List A → Option A
  first_row p [] = none
  first_row p (x ∷ xs) = if p x then some x else first_row p xs

  pub first_row-In :
      (p : A → Bool) (xs : List A) (a : A) → first_row p xs ≡ some a → In a xs × (p a ≡ true)
  unfolding first_row
  first_row-In p [] a h = cc
  first_row-In p (x ∷ xs) a h = elim (Bool-cases (p x)) [
    | inl y ↦
        let same : x ≡ a = let k : some x ≡ some a = rw y at h in cc in
        (subst (λ z. In z (x ∷ xs)) same here, subst (λ z. p z ≡ true) same y)
    | inr e ↦ let (m, q) = first_row-In p xs a (rw e at h) in (there m, q)
  ]

module _ {ℓ} {A : Type ℓ} (key : A → String) where
  -- UPDATE … WHERE the key: `patch` writes the columns of the first argument into the second.
  unfoldable pub set_row : (A → A → A) → A → List A → List A
  set_row patch new [] = []
  set_row patch new (x ∷ xs) =
      if key x == key new then patch new x ∷ xs else x ∷ set_row patch new xs

  -- INSERT
  unfoldable pub insert_row : A → List A → List A
  insert_row new [] = new ∷ []
  insert_row new (x ∷ xs) =
      let rest = insert_row new xs in if str_leb (key new) (key x) then new ∷ x ∷ xs else x ∷ rest

  abbrev pub row_keys : List A → List String
  row_keys [] = []
  row_keys (x ∷ xs) = key x ∷ row_keys xs

  pub key_In : {a : A} (xs : List A) → In a xs → In (key a) (row_keys xs)
  key_In [] m = elim m [ ]
  key_In (x ∷ xs) here = here
  key_In (x ∷ xs) (there m) = there (key_In xs m)

  -- Rows with one key are one row.
  pub same_row :
      (xs : List A) → Distinct (row_keys xs) → (a b : A) → In a xs → In b xs → key a ≡ key b → a ≡ b
  same_row [] d a b m n e = elim m [ ]
  same_row (x ∷ xs) d a b here here e = refl
  same_row (x ∷ xs) d a b here (there n) e =
      absurd (d.0 (subst (λ k. In k (row_keys xs)) (sym e) (key_In xs n)))
  same_row (x ∷ xs) d a b (there m) here e =
      absurd (d.0 (subst (λ k. In k (row_keys xs)) e (key_In xs m)))
  same_row (x ∷ xs) d a b (there m) (there n) e = same_row xs d.1 a b m n e

  -- A row before an update is there after it, or the updated one is.
  pub set_row-In :
      (patch : A → A → A) (new a : A) (xs : List A)
      → In a xs
      → In a (set_row patch new xs) ⊎ ((key a ≡ key new) × In (patch new a) (set_row patch new xs))
  unfolding set_row
  set_row-In patch new a [] m = elim m [ ]
  set_row-In patch new a (x ∷ xs) here = elim (Bool-cases (key a == key new)) [
    | inl y ↦ inr ((eq_iff (key a) (key new)).0 y, rw y here)
    | inr z ↦ inl (rw z here)
  ]
  set_row-In patch new a (x ∷ xs) (there m) = elim (Bool-cases (key x == key new)) [
    | inl y ↦ inl (rw y (there m))
    | inr z ↦ rw z (elim (set_row-In patch new a xs m) [
      | inl k ↦ inl (there k)
      | inr (e, k) ↦ inr (e, there k)
    ])
  ]

  -- A row after an update was there before it, or is the updated one.
  pub In-set_row :
      (patch : A → A → A) (new b : A) (xs : List A)
      → In b (set_row patch new xs)
      → In b xs ⊎ ((a : A) × In a xs × (key a ≡ key new) × (b ≡ patch new a))
  unfolding set_row
  In-set_row patch new b [] m = elim m [ ]
  In-set_row patch new b (x ∷ xs) m = elim (Bool-cases (key x == key new)) [
    | inl y ↦ elim (In-cons (rw y at m)) [
      | inl e ↦ inr (x, here, (eq_iff (key x) (key new)).0 y, e)
      | inr k ↦ inl (there k)
    ]
    | inr z ↦ elim (In-cons (rw z at m)) [
      | inl e ↦ inl (subst (λ k. In k (x ∷ xs)) (sym e) here)
      | inr k ↦ elim (In-set_row patch new b xs k) [
        | inl j ↦ inl (there j)
        | inr (a, j, e, q) ↦ inr (a, there j, e, q)
      ]
    ]
  ]

  pub set_row-keys :
      (patch : A → A → A)
      → ((new a : A) → key (patch new a) ≡ key a)
      → (new : A) (xs : List A) → row_keys (set_row patch new xs) ≡ row_keys xs
  unfolding set_row
  set_row-keys patch keep new [] = refl
  set_row-keys patch keep new (x ∷ xs) = elim (Bool-cases (key x == key new)) [
    | inl y ↦ rw y (ap (λ k. k ∷ row_keys xs) (keep new x))
    | inr z ↦ rw z (ap (λ k. key x ∷ k) (set_row-keys patch keep new xs))
  ]

  pub insert_row-In : (new a : A) (xs : List A) → In a xs → In a (insert_row new xs)
  unfolding insert_row
  insert_row-In new a [] m = elim m [ ]
  insert_row-In new a (x ∷ xs) m = elim (Bool-cases (str_leb (key new) (key x))) [
    | inl y ↦ rw y (there m)
    | inr z ↦ rw z (elim (In-cons m) [
      | inl e ↦ subst (λ k. In k (x ∷ insert_row new xs)) (sym e) here
      | inr j ↦ there (insert_row-In new a xs j)
    ])
  ]

  pub In-insert_row : (new b : A) (xs : List A) → In b (insert_row new xs) → (b ≡ new) ⊎ In b xs
  unfolding insert_row
  In-insert_row new b [] m = In-cons m
  In-insert_row new b (x ∷ xs) m = elim (Bool-cases (str_leb (key new) (key x))) [
    | inl y ↦ In-cons (rw y at m)
    | inr z ↦ elim (In-cons (rw z at m)) [
      | inl e ↦ inr (subst (λ j. In j (x ∷ xs)) (sym e) here)
      | inr j ↦ elim (In-insert_row new b xs j) [ inl e ↦ inl e | inr r ↦ inr (there r) ]
    ]
  ]

  key_of_In : (k : String) (xs : List A) → In k (row_keys xs) → (a : A) × In a xs × (k ≡ key a)
  key_of_In k [] m = elim m [ ]
  key_of_In k (x ∷ xs) m = elim (In-cons m) [
    | inl e ↦ (x, here, e)
    | inr j ↦ let (a, i, e) = key_of_In k xs j in (a, there i, e)
  ]

  -- A key that no row has stays a key of one row.
  pub insert_row-Distinct :
      (new : A) (xs : List A)
      → Distinct (row_keys xs)
      → ¬ (In (key new) (row_keys xs))
      → Distinct (row_keys (insert_row new xs))
  unfolding insert_row
  insert_row-Distinct new [] d fresh = (λ m. elim m [ ], tt)
  insert_row-Distinct new (x ∷ xs) d fresh = elim (Bool-cases (str_leb (key new) (key x))) [
    | inl y ↦ rw y (fresh, d)
    | inr z ↦ rw z (
      λ m.
          let (a, i, e) = key_of_In (key x) (insert_row new xs) m in
          elim (In-insert_row new a xs i) [
            | inl q ↦ fresh (subst (λ k. In k (key x ∷ row_keys xs)) (let r = ap key q in cc) here)
            | inr j ↦ d.0 (subst (λ k. In k (row_keys xs)) (sym e) (key_In xs j))
          ],
      insert_row-Distinct new xs d.1 (λ m. fresh (there m)),
    )
  ]

  pub any-row_keys :
      (k : String) (xs : List A) → any (λ x. key x == k) xs ≡ false → ¬ (In k (row_keys xs))
  any-row_keys k [] h m = elim m [ ]
  any-row_keys k (x ∷ xs) h m =
      let (a, b) : ((key x == k) ≡ false) × (any (λ y. key y == k) xs ≡ false) = ground arith in
      elim (In-cons m) [
        | inl e ↦ absurd (let q = (eq_iff (key x) k).1 (sym e) in cc)
        | inr j ↦ any-row_keys k xs b j
      ]

  -- An update of the row that a query found is what the query finds after it.
  pub first_row-set_row :
      (p : A → Bool) (patch : A → A → A) (new a : A) (xs : List A)
      → Distinct (row_keys xs)
      → first_row p xs ≡ some a
      → key a ≡ key new
      → p (patch new a) ≡ true
      → first_row p (set_row patch new xs) ≡ some (patch new a)
  unfolding first_row set_row
  first_row-set_row p patch new a [] d h e q = cc
  first_row-set_row p patch new a (x ∷ xs) d h e q = elim (Bool-cases (p x)) [
    | inl y ↦
        let same : some x ≡ some a = rw y at h in
        let x_eq : x ≡ a = cc in
        let k : (key x == key new) ≡ true = (eq_iff (key x) (key new)).1 (ap key x_eq ∙ e) in
        let r : p (patch new x) ≡ true = ap (λ z. p (patch new z)) x_eq ∙ q in
        rw (k, r) (ap (λ z. some (patch new z)) x_eq)
    | inr n ↦
        let h' = rw n at h in
        elim (Bool-cases (key x == key new)) [
          | inl y ↦
              let (m, _) = first_row-In p xs a h' in
              absurd (
                d.0 (
                  subst (λ k. In k (row_keys xs)) (e ∙ sym ((eq_iff (key x) (key new)).0 y))
                    (key_In xs m)))
          | inr z ↦ rw (z, n) (first_row-set_row p patch new a xs d.1 h' e q)
        ]
  ]
