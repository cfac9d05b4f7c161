-- ===== src/Taskauthz/Read/Every.antt =====
-- What Resolve of internal/tasks/readauthz/readauthz.go answers where the template declares no readers.
use nsw_srilanka.Common.{
  In-contains, String, ◌==◌, eq_iff, Bool, true, false, ◌&&◌, some, List, [], ◌∷◌, ◌≡◌, refl, sym,
  ap, ◌∙◌, subst, inl, inr, ◌↔◌, contains, any-In, is_some, Dict, lookup, insert, Bool-cases, arith,
  if◌then◌else◌,
}
use nsw_srilanka.Taskauthz.{
  Input, Catalog, Answer, ok, err, Eligibility, allows, any_of, eligible, role_names,
}
use nsw_srilanka.Taskauthz.Eligible.{ActsAs}
use nsw_srilanka.Taskauthz.Read.{
  claim_key, allowed_roles, all_false, admit, claims_for, decide, resolve,
}
use nsw_srilanka.Taskauthz.Read.Roles.{role_names-In, claim-insert, all_false-lookup}
use nsw_srilanka.Taskauthz.Read.Claims.{not_allowed, allowed_acts}

module _ (e : Eligibility) where
  admit-any : (ns : List String) (claims : Dict Bool) → (admit e ns claims).1 ≡ any_of e ns
  unfolding admit
  admit-any [] claims = refl
  admit-any (n ∷ ns) claims = elim (Bool-cases (allows e n)) [
    | inl y ↦ rw y
    | inr z ↦ rw z (admit-any ns claims)
  ]

  admit-lookup :
      (m : String) (ns : List String) (claims : Dict Bool)
      → lookup (claim_key m) (admit e ns claims).0
        ≡ (if contains ns m && allows e m then some true else lookup (claim_key m) claims)
  unfolding admit
  admit-lookup m [] claims = refl
  admit-lookup m (n ∷ ns) claims = elim (Bool-cases (allows e n)) [
    | inl y ↦ rw y (
        admit-lookup m ns (insert (claim_key n) true claims)
        ∙ rw (claim-insert n m true claims) (elim (Bool-cases (n == m)) [
          | inl q ↦
              let a : allows e m ≡ true = subst (λ k. allows e k ≡ true) ((eq_iff n m).0 q) y in
              ground arith
          | inr q ↦ rw q
        ]))
    | inr z ↦ rw z (
        admit-lookup m ns claims ∙ elim (Bool-cases (n == m)) [
          | inl q ↦
              let a : allows e m ≡ false = subst (λ k. allows e k ≡ false) ((eq_iff n m).0 q) z in
              ground arith
          | inr q ↦ rw q
        ])
  ]

resolve_undeclared :
    (cat : Catalog) (caller : Input) (c : String)
    → resolve cat caller [] c
      ≡ decide cat (eligible cat caller c (role_names cat)) (role_names cat, false)
unfolding resolve allowed_roles
resolve_undeclared cat caller c = refl

-- Where the template declares no readers, a caller who reads a task may act in some catalog role on its
-- case, and the claim of every catalog role is present and true exactly when the caller may act in it.
pub resolve_every :
    (cat : Catalog) (caller : Input) (c : String) (claims : Dict Bool)
    → resolve cat caller [] c ≡ ok claims
    → ((n : String) × ActsAs cat caller c n)
      × ((m : String)
          → is_some (lookup m cat.roles) ≡ true
          → (b : Bool) × (lookup (claim_key m) claims ≡ some b)
            × ((b ≡ true) ↔ ActsAs cat caller c m))
unfolding decide claims_for
resolve_every cat caller c claims h =
    go (eligible cat caller c names) refl (rw (resolve_undeclared cat caller c) at h)
  where
    names : List String
    names = role_names cat

    go :
        (a : Answer Eligibility)
        → eligible cat caller c names ≡ a
        → decide cat a (names, false) ≡ ok claims
        → ((n : String) × ActsAs cat caller c n)
          × ((m : String)
              → is_some (lookup m cat.roles) ≡ true
              → (b : Bool) × (lookup (claim_key m) claims ≡ some b)
                × ((b ≡ true) ↔ ActsAs cat caller c m))
    go (err y) q h = cc
    go (ok e) q h = elim (Bool-cases (any_of e names)) [
      | inr z ↦ absurd (let k = admit-any e names (all_false names) in ground arith)
      | inl z ↦
          let k = admit-any e names (all_false names) in
          let same : (admit e names (all_false names)).0 ≡ claims = ground arith in
          let (n, i, p) = any-In (allows e) names z in
          (
            (n, allowed_acts cat caller c names e q n p),
            λ m known.
                let j = (role_names-In cat m).1 known in
                let at : lookup (claim_key m) claims ≡ some (allows e m) =
                  ap (lookup (claim_key m)) (sym same)
                  ∙ admit-lookup e m names (all_false names)
                  ∙ rw (In-contains j, all_false-lookup m names j)
                      (elim (Bool-cases (allows e m)) [ inl y ↦ rw y | inr x ↦ rw x ]) in
                (
                  allows e m,
                  at,
                  (
                    λ y. allowed_acts cat caller c names e q m y,
                    λ a. elim (Bool-cases (allows e m)) [
                      | inl y ↦ y
                      | inr x ↦ absurd (not_allowed cat caller c names e q m j x a)
                    ],
                  ),
                ),
          )
    ]
