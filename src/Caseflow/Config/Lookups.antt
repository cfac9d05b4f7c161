-- ===== src/Caseflow/Config/Lookups.antt =====
-- Who may start a listed flow: the lookups of internal/caseflow/config.go against what the list says.
use text.Mathlib.TextPositions.{eq_refl}
use nsw_srilanka.Common.{
  String, ◌==◌, eq_iff, true, ◌&&◌, none, some, List, [], ◌∷◌, ◌≡◌, sym, ap, ◌∙◌, arith, contains,
  keep, In, here, there, any-In, In-any, In-keep, keep-In, subst, ◌≢◌, Bool-cases, inl, inr,
}
use nsw_srilanka.Caseflow.Config.{
  UserFlow, UserFlows, ClientFlow, ClientFlows, startable_by, first_user, find_user_flow,
  first_client, find_client_flow,
}

-- The flow is listed, its list is on, and one of its roles is among the caller's.
pub record MayStart (u : UserFlows) (roles : List String) (f : UserFlow) : Type 0 where
  pub on : u.enabled ≡ true
  pub listed : In f u.workflows
  pub role : String
  pub role_listed : In role f.roles
  pub role_held : In role roles

first_user-In :
    (id : String) (fs : List UserFlow) (f : UserFlow)
    → first_user id fs ≡ some f
    → In f fs × (f.id ≡ id)
unfolding first_user
first_user-In id [] f h = cc
first_user-In id (x ∷ fs) f h = elim (Bool-cases (x.id == id)) [
  | inl y ↦
      let e : x ≡ f = let k : some x ≡ some f = rw y at h in cc in
      (
        subst (λ g. In g (x ∷ fs)) e here,
        ap (λ (g : UserFlow). g.id) (sym e) ∙ (eq_iff x.id id).0 y,
      )
  | inr n ↦ let (m, q) = first_user-In id fs f (rw n at h) in (there m, q)
]

first_user-none :
    (id : String) (fs : List UserFlow) {f : UserFlow}
    → In f fs
    → f.id ≡ id
    → first_user id fs ≢ none
unfolding first_user
first_user-none id [] m e h = elim m [ ]
first_user-none id (x ∷ fs) {f} here e h = ground (arith, eq_iff f.id id)
first_user-none id (x ∷ fs) {f} (there m) e h = ground (arith, first_user-none id fs m e)

-- The flow that a lookup finds is one of that ID that the caller may start.
pub find_user_flow_sound :
    (u : UserFlows) (id : String) (roles : List String) (f : UserFlow)
    → find_user_flow u id roles ≡ some f
    → MayStart u roles f × (f.id ≡ id)
unfolding find_user_flow
find_user_flow_sound u id roles f h = elim (Bool-cases u.enabled) [
  | inr n ↦ absurd (let k : none ≡ some f = rw n at h in cc)
  | inl y ↦
      let (m, e) = first_user-In id (keep (λ f. startable_by f roles) u.workflows) f (rw y at h) in
      let (listed, p) = In-keep (λ f. startable_by f roles) u.workflows m in
      let (role, a, b) = any-In (λ role. contains roles role) f.roles p in
      let (held, c, d) = any-In (λ x. x == role) roles b in
      (
        record {
          on = y;
          listed = listed;
          role = role;
          role_listed = a;
          role_held = subst (λ r. In r roles) ((eq_iff held role).0 d) c;
        },
        e,
      )
]

-- Where the caller may start a flow of that ID, a lookup finds one.
pub find_user_flow_complete :
    (u : UserFlows) (id : String) (roles : List String) (f : UserFlow)
    → MayStart u roles f
    → f.id ≡ id
    → find_user_flow u id roles ≢ none
unfolding find_user_flow
find_user_flow_complete u id roles f m e h =
    let r : startable_by f roles ≡ true =
      In-any (λ role. contains roles role) m.role_listed
        (In-any (λ x. x == m.role) m.role_held (eq_refl m.role)) in
    first_user-none id (keep (λ f. startable_by f roles) u.workflows)
      (keep-In (λ f. startable_by f roles) m.listed r) e (rw m.on at h)

first_client-In :
    (id client : String) (fs : List ClientFlow) (f : ClientFlow)
    → first_client id client fs ≡ some f
    → In f fs × (f.id ≡ id) × (contains f.clients client ≡ true)
unfolding first_client
first_client-In id client [] f h = cc
first_client-In id client (x ∷ fs) f h =
    elim (Bool-cases ((x.id == id) && contains x.clients client)) [
      | inl y ↦
          let e : x ≡ f = let k : some x ≡ some f = rw y at h in cc in
          let (p, q) : ((x.id == id) ≡ true) × (contains x.clients client ≡ true) = ground arith in
          subst (λ g. In g (x ∷ fs) × (g.id ≡ id) × (contains g.clients client ≡ true)) e
            (here, (eq_iff x.id id).0 p, q)
      | inr n ↦ let (m, q, r) = first_client-In id client fs f (rw n at h) in (there m, q, r)
    ]

-- The flow that a client's lookup finds is listed under that ID and names the client, in a list
-- that is on.
pub find_client_flow_sound :
    (c : ClientFlows) (id client : String) (f : ClientFlow)
    → find_client_flow c id client ≡ some f
    → (c.enabled ≡ true) × In f c.workflows × (f.id ≡ id) × In client f.clients
unfolding find_client_flow
find_client_flow_sound c id client f h = elim (Bool-cases c.enabled) [
  | inr n ↦ absurd (let k : none ≡ some f = rw n at h in cc)
  | inl y ↦
      let (m, e, p) = first_client-In id client c.workflows f (rw y at h) in
      let (held, a, b) = any-In (λ x. x == client) f.clients p in
      (y, m, e, subst (λ r. In r f.clients) ((eq_iff held client).0 b) a)
]
