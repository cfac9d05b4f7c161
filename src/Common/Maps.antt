-- ===== src/Common/Maps.antt =====
-- Go maps with text keys, as association lists; the order of the entries is never read.
use Prim.Native.String.{String}
use mathlib.Core.Path.{◌≡◌, refl, subst}
use mathlib.Core.Option.{Option, none, some}
use mathlib.Core.List.{List, [], ◌∷◌}
use native.Mathlib.Omega.{arith}
use text.Mathlib.Text.{◌==◌}
use text.Mathlib.TextEquality.{eq_iff}
use nsw_srilanka.Common.Tests.{if◌then◌else◌, Bool-cases}
use nsw_srilanka.Common.Lists.{In, here, there}
use mathlib.Core.Logic.{inl, inr}

abbrev pub Dict {ℓ} : Type ℓ → Type ℓ
Dict V = List (String × V)

module _ {ℓ} {V : Type ℓ} where
  -- the value of a key, where the map has one
  unfoldable pub lookup : String → Dict V → Option V
  lookup key [] = none
  lookup key ((name, value) ∷ rest) = if name == key then some value else lookup key rest

  -- m[key] = value
  unfoldable pub insert : String → V → Dict V → Dict V
  insert key value [] = (key, value) ∷ []
  insert key value ((name, old) ∷ rest) =
      if name == key then (name, value) ∷ rest else (name, old) ∷ insert key value rest

  abbrev pub keys : Dict V → List String
  keys [] = []
  keys ((name, value) ∷ rest) = name ∷ keys rest

  -- What is written is read, and every other key reads as before.
  pub lookup-insert :
      (key name : String) (value : V) (entries : Dict V)
      → lookup name (insert key value entries)
        ≡ (if key == name then some value else lookup name entries)
  unfolding lookup insert
  lookup-insert key name value [] = refl
  lookup-insert key name value ((first, old) ∷ rest) =
      let later = lookup-insert key name value rest in
      ground (arith, later, eq_iff first key, eq_iff first name, eq_iff key name)

  pub lookup-In : (key : String) (d : Dict V) (v : V) → lookup key d ≡ some v → In (key, v) d
  unfolding lookup
  lookup-In key [] v h = cc
  lookup-In key ((name, u) ∷ d) v h = elim (Bool-cases (name == key)) [
    | inl e ↦
        let q = (eq_iff name key).0 e in
        let p : u ≡ v = ground arith in
        subst (λ s. In (key, v) (s ∷ d)) (let r : (key, v) ≡ (name, u) = cc in r) here
    | inr e ↦ there (lookup-In key d v (ground arith))
  ]
