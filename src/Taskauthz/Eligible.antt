-- ===== src/Taskauthz/Eligible.antt =====
-- What Eligible of internal/tasks/taskauthz/eligibility.go decides.
use nsw_srilanka.Common.{
  String, Bool, true, false, not, some, List, ◌≡◌, refl, ◌∙◌, inl, inr, any, contains, contains-In,
  In-contains, In, In-any, lookup, Option-cases, arith, if◌then◌else◌,
}
use nsw_srilanka.Taskauthz.{
  kind_user, kind_client, kind_system, OwnedRolesFunc, Input, Catalog, ok, Eligibility, allows,
  holds, holds_role, owned_by, ask, eligible,
}

-- The user holds the token role of the logical role `name`, and its company the role itself on
-- case `c`.
pub record ActsAs (cat : Catalog) (caller : Input) (c name : String) : Type 0 where
  pub is_user : caller.kind ≡ kind_user
  pub role : String
  pub catalogued : lookup name cat.roles ≡ some role
  pub held : In role caller.roles
  pub find : OwnedRolesFunc
  pub resolver : caller.owned_roles ≡ some find
  pub owned : String → Bool
  pub resolved : find c ≡ some owned
  pub owns : owned name ≡ true

-- A name that is held is among those asked for, is a catalog role, and its token role is carried.
pub holds_lem :
    (cat : Catalog) (caller : Input) (names : List String) (n : String)
    → holds cat caller names n ≡ true
    → In n names × ((role : String) × (lookup n cat.roles ≡ some role) × In role caller.roles)
unfolding holds holds_role
holds_lem cat caller names n h = elim (Option-cases (lookup n cat.roles)) [
  | inl e ↦ absurd (ground arith)
  | inr (role, e) ↦
      let (p, q) : (contains names n ≡ true) × (contains caller.roles role ≡ true) = ground arith in
      (contains-In names n p, (role, e, contains-In caller.roles role q))
]

pub held_lem :
    (cat : Catalog) (caller : Input) (names : List String) (n role : String)
    → In n names
    → lookup n cat.roles ≡ some role
    → In role caller.roles
    → holds cat caller names n ≡ true
unfolding holds holds_role
held_lem cat caller names n role m e r =
    let p = In-contains m in let q = In-contains r in ground arith

module _ (cat : Catalog) (caller : Input) (c : String) (names : List String) where
  eligible_user :
      caller.kind ≡ kind_user
      → eligible cat caller c names ≡ (
          if not (any (holds cat caller names) names)
          then ok (record { held = holds cat caller names; owned = λ n. false })
          else ask
              (record { held = holds cat caller names; owned = λ n. false })
              c
              caller.owned_roles)
  unfolding eligible
  eligible_user u = rw u

  -- A role that Eligible allows is one of the names, and one that the caller acts as.
  pub eligible-ActsAs :
      (e : Eligibility) (n : String)
      → eligible cat caller c names ≡ ok e
      → allows e n ≡ true
      → In n names × ActsAs cat caller c n
  unfolding ask owned_by
  eligible-ActsAs e n h a = go caller.kind refl
    where
      go : (k : _) → caller.kind ≡ k → In n names × ActsAs cat caller c n
      go kind_client q = absurd (unfold eligible in ground arith)
      go kind_system q = absurd (unfold eligible in ground arith)
      go kind_user q = elim (Option-cases caller.owned_roles) [
        | inl o ↦ absurd (ground (arith, eligible_user q))
        | inr (f, o) ↦ elim (Option-cases (f c)) [
          | inl x ↦ absurd (ground (arith, eligible_user q))
          | inr (owned, x) ↦
              let (p, w) : (holds cat caller names n ≡ true) × (owned n ≡ true) =
                ground (arith, eligible_user q) in
              let (m, (role, r, t)) = holds_lem cat caller names n p in
              (
                m,
                record {
                  is_user = q;
                  role = role;
                  catalogued = r;
                  held = t;
                  find = f;
                  resolver = o;
                  owned = owned;
                  resolved = x;
                  owns = w;
                },
              )
        ]
      ]

  -- A role that the caller acts as is allowed, when it is one of the names.
  pub ActsAs-eligible :
      (n : String)
      → In n names
      → ActsAs cat caller c n
      → (e : Eligibility) × (eligible cat caller c names ≡ ok e) × (allows e n ≡ true)
  unfolding ask owned_by
  ActsAs-eligible n m a =
      let p = held_lem cat caller names n a.role m a.catalogued a.held in
      let q = In-any (holds cat caller names) m p in
      (
        record { held = holds cat caller names; owned = a.owned },
        eligible_user a.is_user ∙ rw (q, a.resolver, a.resolved),
        rw (p, a.owns),
      )
