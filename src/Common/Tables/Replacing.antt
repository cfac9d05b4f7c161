-- ===== src/Common/Tables/Replacing.antt =====
-- What an UPDATE of one row leaves in a table.
use Prim.Native.String.{String}
use mathlib.Core.Path.{◌≡◌, sym, ap, subst, ◌∙◌}
use mathlib.Core.Logic.{◌≢◌, ◌⊎◌, inl, inr}
use mathlib.Core.List.{List, [], ◌∷◌}
use text.Mathlib.Text.{◌==◌}
use text.Mathlib.TextEquality.{eq_iff}
use nsw_srilanka.Common.Tests.{Bool-cases}
use nsw_srilanka.Common.Lists.{In, here, there, Distinct}
use nsw_srilanka.Common.Tables.{
  set_row, row_keys, key_In, same_row, set_row-In, In-set_row, set_row-keys,
}

-- `ys` is `xs` with the row `new` in the place of the row of its key, `old`.
pub record Replaced {ℓ} {A : Type ℓ} (key : A → String) (old new : A) (xs ys : List A)
    : Type ℓ where
  pub found : In old xs
  pub written : In new ys
  pub kept : (a : A) → In a xs → key a ≢ key old → In a ys
  pub only : (b : A) → In b ys → (b ≡ new) ⊎ (In b xs × (key b ≢ key old))

module _ {ℓ} {A : Type ℓ} (key : A → String) (patch : A → A → A)
    (keeps : (new a : A) → key (patch new a) ≡ key a) where
  set_row-written :
      (target old : A) (xs : List A)
      → Distinct (row_keys key xs)
      → In old xs
      → key old ≡ key target
      → In (patch target old) (set_row key patch target xs)
  unfolding set_row
  set_row-written target old [] d m e = elim m [ ]
  set_row-written target old (x ∷ xs) d here e = rw ((eq_iff (key x) (key target)).1 e) here
  set_row-written target old (x ∷ xs) d (there m) e = elim (Bool-cases (key x == key target)) [
    | inl y ↦ absurd (
        d.0 (
          subst (λ k. In k (row_keys key xs)) (e ∙ sym ((eq_iff (key x) (key target)).0 y))
            (key_In key xs m)))
    | inr z ↦ rw z (there (set_row-written target old xs d.1 m e))
  ]

  pub set_row-Replaced :
      (target old : A) (xs : List A)
      → Distinct (row_keys key xs)
      → In old xs
      → key old ≡ key target
      → Replaced key old (patch target old) xs (set_row key patch target xs)
  set_row-Replaced target old xs d m e = record {
    found = m;
    written = set_row-written target old xs d m e;
    kept = λ a n far. elim (set_row-In key patch target a xs n) [
      | inl i ↦ i
      | inr (q, i) ↦ absurd (far (q ∙ sym e))
    ];
    only = λ b n. elim (Bool-cases (key b == key old)) [
      | inl y ↦ inl (
          same_row key (set_row key patch target xs)
            (subst Distinct (sym (set_row-keys key patch keeps target xs)) d) b (patch target old) n
            (set_row-written target old xs d m e)
            ((eq_iff (key b) (key old)).0 y ∙ sym (keeps target old)))
      | inr z ↦ elim (In-set_row key patch target b xs n) [
        | inl i ↦ inr (i, λ q. let k = (eq_iff (key b) (key old)).1 q in cc)
        | inr (a, j, q, same) ↦
            let k : key b ≡ key old = ap key same ∙ keeps target a ∙ q ∙ sym e in
            absurd (let t = (eq_iff (key b) (key old)).1 k in cc)
      ]
    ];
  }
