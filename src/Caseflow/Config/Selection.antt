-- ===== src/Caseflow/Config/Selection.antt =====
-- A validated config's lookup, of internal/caseflow/config.go, is exact.
use nsw_srilanka.Common.{
  String, Bool, some, List, [], ◌∷◌, ◌≡◌, refl, sym, ap, ◌∙◌, In, Distinct, here, there, inl, inr,
  ◌↔◌, subst, Option-cases,
}
use nsw_srilanka.Caseflow.Config.{
  UserFlow, Config, Catalog, passed, validate, user_ids, find_user_flow,
}
use nsw_srilanka.Caseflow.Config.Lookups.{MayStart, find_user_flow_sound, find_user_flow_complete}
use nsw_srilanka.Caseflow.Config.Validity.Exact.{validate_exact}

id-In : {f : UserFlow} (fs : List UserFlow) → In f fs → In f.id (user_ids fs)
id-In [] m = elim m [ ]
id-In (x ∷ fs) here = here
id-In (x ∷ fs) (there m) = there (id-In fs m)

-- Of flows with distinct identifiers, one has a given identifier.
one_of_id :
    (fs : List UserFlow)
    → Distinct (user_ids fs)
    → (f g : UserFlow) → In f fs
    → In g fs
    → f.id ≡ g.id
    → f ≡ g
one_of_id [] d f g m n e = elim m [ ]
one_of_id (x ∷ fs) d f g here here e = refl
one_of_id (x ∷ fs) d f g here (there n) e =
    absurd (d.0 (subst (λ k. In k (user_ids fs)) (sym e) (id-In fs n)))
one_of_id (x ∷ fs) d f g (there m) here e =
    absurd (d.0 (subst (λ k. In k (user_ids fs)) e (id-In fs m)))
one_of_id (x ∷ fs) d f g (there m) (there n) e = one_of_id fs d.1 f g m n e

-- In a config that Validate accepts, a lookup finds a flow exactly when it has that ID and the
-- caller may start it.
pub find_user_flow_exact :
    (vp : String → Bool) (c : Config) (cat : Catalog) (id : String) (roles : List String)
    (f : UserFlow)
    → validate vp c cat ≡ passed tt
    → (find_user_flow c.users id roles ≡ some f) ↔ (MayStart c.users roles f × (f.id ≡ id))
find_user_flow_exact vp c cat id roles f ok = (find_user_flow_sound c.users id roles f, from)
  where
    from : MayStart c.users roles f × (f.id ≡ id) → find_user_flow c.users id roles ≡ some f
    from (m, e) = elim (Option-cases (find_user_flow c.users id roles)) [
      | inl n ↦ absurd (find_user_flow_complete c.users id roles f m e n)
      | inr (g, p) ↦
          let (k, q) = find_user_flow_sound c.users id roles g p in
          let same =
            one_of_id c.users.workflows ((validate_exact vp c cat).0 ok).user_ids_distinct g f
              k.listed m.listed (q ∙ sym e) in
          p ∙ ap some same
    ]
