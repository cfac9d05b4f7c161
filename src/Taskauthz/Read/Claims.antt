-- ===== src/Taskauthz/Read/Claims.antt =====
-- What Resolve of internal/tasks/readauthz/readauthz.go answers.
use nsw_srilanka.Common.{
  String, ◌==◌, Bool, true, false, none, some, List, [], ◌∷◌, ◌≡◌, refl, sym, ap, ◌∙◌, subst, inl,
  inr, In, here, there, In-cons, keep-In, keep, is_some, Dict, lookup, insert, Bool-cases,
  Option-cases, arith,
}
use nsw_srilanka.Taskauthz.{
  Input, Catalog, denied, Answer, ok, err, Eligibility, allows, eligible, role_names,
}
use nsw_srilanka.Taskauthz.Eligible.{ActsAs, eligible-ActsAs, ActsAs-eligible}
use nsw_srilanka.Taskauthz.Read.{
  claim_key, allowed_roles, all_false, first_role, as_first, claims_for, decide, resolve,
}
use nsw_srilanka.Taskauthz.Read.Roles.{role_names-In, claim-insert, all_false-lookup}

-- `n` is the first name of the list in which the caller may act on the case.
pub data ActsFirst (cat : Catalog) (caller : Input) (c n : String) : List String → Type 0 where
  first : {ns : List String} → ActsAs cat caller c n → ActsFirst cat caller c n (n ∷ ns)
  later :
      {m : String} {ns : List String}
      → ¬ (ActsAs cat caller c m)
      → ActsFirst cat caller c n ns
      → ActsFirst cat caller c n (m ∷ ns)

-- The claim of every catalog role is present, and it is true for the role `n` alone.
abbrev pub OnlyClaim : Catalog → String → Dict Bool → Type 0
OnlyClaim cat n claims =
    (m : String) → is_some (lookup m cat.roles) ≡ true → lookup (claim_key m) claims ≡ some (n == m)

module _ (cat : Catalog) (caller : Input) (c : String) (names : List String) (e : Eligibility)
    (given : eligible cat caller c names ≡ ok e) where
  -- Of the names asked for, those not allowed are those that the caller may not act in.
  pub not_allowed : (n : String) → In n names → allows e n ≡ false → ¬ (ActsAs cat caller c n)
  not_allowed n i h a =
      let (e', q, p) = ActsAs-eligible cat caller c names n i a in
      let same : e ≡ e' = cc in
      let k : allows e n ≡ true = subst (λ (x : Eligibility). allows x n ≡ true) (sym same) p in cc

  pub allowed_acts : (n : String) → allows e n ≡ true → ActsAs cat caller c n
  allowed_acts n h = (eligible-ActsAs cat caller c names e n given h).1

  abbrev catalogued : String → Bool
  catalogued m = is_some (lookup m cat.roles)

  unknown : (m : String) → catalogued m ≡ false → ¬ (ActsAs cat caller c m)
  unknown m h a = let q = a.catalogued in absurd (ground arith)

  first_sound :
      (xs : List String) (n : String)
      → ((m : String) → In m xs → catalogued m ≡ true → In m names)
      → first_role e (keep catalogued xs) ≡ some n
      → ActsFirst cat caller c n xs
  unfolding first_role
  first_sound [] n sub h = cc
  first_sound (x ∷ xs) n sub h = elim (Bool-cases (catalogued x)) [
    | inr u ↦ later (unknown x u) (first_sound xs n (λ m i. sub m (there i)) (rw u at h))
    | inl k ↦ elim (Bool-cases (allows e x)) [
      | inl a ↦
          let same : x ≡ n = let t : some x ≡ some n = rw (k, a) at h in cc in
          subst (λ y. ActsFirst cat caller c y (x ∷ xs)) same (first (allowed_acts x a))
      | inr b ↦
          later (not_allowed x (sub x here k) b)
            (first_sound xs n (λ m i. sub m (there i)) (rw (k, b) at h))
    ]
  ]

  first_none :
      (xs : List String) (n : String)
      → ((m : String) → In m xs → catalogued m ≡ true → In m names)
      → first_role e (keep catalogued xs) ≡ none
      → In n xs
      → ¬ (ActsAs cat caller c n)
  unfolding first_role
  first_none [] n sub h i = elim i [ ]
  first_none (x ∷ xs) n sub h i = elim (Bool-cases (catalogued x)) [
    | inr u ↦ elim (In-cons i) [
      | inl q ↦ subst (λ y. ¬ (ActsAs cat caller c y)) (sym q) (unknown x u)
      | inr j ↦ first_none xs n (λ m i. sub m (there i)) (rw u at h) j
    ]
    | inl k ↦ elim (Bool-cases (allows e x)) [
      | inl a ↦ absurd (let t : some x ≡ none = rw (k, a) at h in cc)
      | inr b ↦ elim (In-cons i) [
        | inl q ↦ subst (λ y. ¬ (ActsAs cat caller c y)) (sym q) (not_allowed x (sub x here k) b)
        | inr j ↦ first_none xs n (λ m i. sub m (there i)) (rw (k, b) at h) j
      ]
    ]
  ]

kept : (cat : Catalog) (xs : List String) → List String
kept cat xs = keep (λ m. is_some (lookup m cat.roles)) xs

resolve_declared :
    (cat : Catalog) (caller : Input) (x : String) (xs : List String) (c : String)
    → resolve cat caller (x ∷ xs) c
      ≡ decide cat (eligible cat caller c (kept cat (x ∷ xs))) (kept cat (x ∷ xs), true)
unfolding resolve allowed_roles kept
resolve_declared cat caller x xs c = refl

only_claim :
    (cat : Catalog) (n : String)
    → OnlyClaim cat n (insert (claim_key n) true (all_false (role_names cat)))
only_claim cat n m known = claim-insert n m true _ ∙ elim (Bool-cases (n == m)) [
  | inl y ↦ rw y
  | inr z ↦ rw z (all_false-lookup m (role_names cat) ((role_names-In cat m).1 known))
]

-- A caller who reads a task whose template declares its readers acts as the first declared role that it
-- may act in on the task's case: that role's claim alone is true, and every catalog role has one.
pub resolve_first :
    (cat : Catalog) (caller : Input) (x : String) (xs : List String) (c : String)
    (claims : Dict Bool)
    → resolve cat caller (x ∷ xs) c ≡ ok claims
    → (n : String) × ActsFirst cat caller c n (x ∷ xs) × OnlyClaim cat n claims
unfolding decide claims_for as_first kept
resolve_first cat caller x xs c claims h =
    go (eligible cat caller c (kept cat (x ∷ xs))) refl
      (rw (resolve_declared cat caller x xs c) at h)
  where
    names : List String
    names = kept cat (x ∷ xs)

    go :
        (a : Answer Eligibility)
        → eligible cat caller c names ≡ a
        → decide cat a (names, true) ≡ ok claims
        → (n : String) × ActsFirst cat caller c n (x ∷ xs) × OnlyClaim cat n claims
    go (err y) q h = cc
    go (ok e) q h = elim (Option-cases (first_role e names)) [
      | inl z ↦ absurd (let t : err denied ≡ ok claims = rw z at h in cc)
      | inr (n, p) ↦
          let same : insert (claim_key n) true (all_false (role_names cat)) ≡ claims =
            let t : ok (insert (claim_key n) true (all_false (role_names cat))) ≡ ok claims =
              rw p at h in
            cc in
          (
            n,
            first_sound cat caller c names e q (x ∷ xs) n
                (λ m i k. keep-In (λ m. is_some (lookup m cat.roles)) i k) p,
            subst (OnlyClaim cat n) same (only_claim cat n),
          )
    ]

-- A caller whose read is denied may act in none of the declared roles on the task's case.
pub resolve_denied :
    (cat : Catalog) (caller : Input) (x : String) (xs : List String) (c n : String)
    → resolve cat caller (x ∷ xs) c ≡ err denied
    → In n (x ∷ xs)
    → ¬ (ActsAs cat caller c n)
unfolding decide claims_for as_first kept
resolve_denied cat caller x xs c n h i a =
    let known : is_some (lookup n cat.roles) ≡ true = let q = a.catalogued in ground arith in
    let j = keep-In (λ m. is_some (lookup m cat.roles)) i known in
    let (e, q, p) = ActsAs-eligible cat caller c (kept cat (x ∷ xs)) n j a in
    let h' : decide cat (ok e) (kept cat (x ∷ xs), true) ≡ err denied =
      ap (λ (t : Answer Eligibility). decide cat t (kept cat (x ∷ xs), true)) (sym q)
      ∙ sym (resolve_declared cat caller x xs c)
      ∙ h in
    elim (Option-cases (first_role e (kept cat (x ∷ xs)))) [
      | inl z ↦
          first_none cat caller c (kept cat (x ∷ xs)) e q (x ∷ xs) n
            (λ m i k. keep-In (λ m. is_some (lookup m cat.roles)) i k) z i a
      | inr (m, z) ↦ absurd (ground arith)
    ]
