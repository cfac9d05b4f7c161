-- ===== src/Claims/Gate.antt =====
-- Whom the routes of internal/tasks/claim_handler.go let through.
pub mod Holders
use nsw_srilanka.Common.{
  String, ◌==◌, Bool, true, false, ◌&&◌, not, Option, none, some, List, [], ◌∷◌, ◌≡◌, ◌≢◌, refl,
  sym, ap, ◌∙◌, subst, inl, inr, ◌⊎◌, Dict, Bool-cases, Option-cases, arith, if◌then◌else◌,
}
use nsw_srilanka.Taskauthz.{
  PrincipalKind, kind_user, kind_client, kind_system, Input, Catalog, denied, Answer, ok, err,
}
use nsw_srilanka.Taskauthz.Read.{resolve}
use nsw_srilanka.Claims.{
  TaskRecord, Template, Stored, absent, unreadable, stored, ClaimError, task_completed, Deps, World,
  Response, no_content, internal, Target, answered, target, answer_claim, admit_reader,
  admit_templated, admit_stored, admit_claimant, of_claimant, claim_target, claim_from,
  after_release, claim, handle_claim, release, handle_release, Takeover, readable, is_user, as_held,
}

-- The caller is a user with an id, who can read the stored task, and the task's template lets it be
-- claimed.
pub record MayClaim {Core : Type 0} (deps : Deps Core) (id : String) (caller : Option Input)
    (core : Core) (who : Input) (r : TaskRecord) : Type 0 where
  pub present : caller ≡ some who
  pub a_user : who.kind ≡ kind_user
  pub identified : (who.user_id == "") ≡ false
  pub is_stored : deps.get_task id core ≡ stored r
  pub template : Template
  pub templated : deps.template_of r ≡ some template
  pub claimable : template.claimable ≡ true
  pub claims : Dict Bool
  pub reads : resolve deps.catalog who template.read_roles r.case_id ≡ ok claims

module _ {Core : Type 0} where
  answer_core :
      (op id : String) (tk : Option Takeover) (e : Option ClaimError) (w : World Core)
      → (answer_claim op id tk e w).1.core ≡ w.core
  unfolding answer_claim
  answer_core op id tk none w = refl
  answer_core op id tk (some e) w = ground arith

  answer_done :
      (op id : String) (tk : Option Takeover) (e : Option ClaimError) (w : World Core)
      → (answer_claim op id tk e w).0 ≡ no_content
      → e ≡ none
  unfolding answer_claim
  answer_done op id tk none w h = refl
  answer_done op id tk (some e) w h = ground arith

readable_ok :
    (a : Answer (Dict Bool)) → readable a ≡ some true → (claims : Dict Bool) × (a ≡ ok claims)
readable_ok (ok claims) h = (claims, refl)
readable_ok (err x) h = absurd (ground arith)

module _ {Core : Type 0} (deps : Deps Core) (op id : String) where
  reader_core :
      (c : Input) (r : TaskRecord) (b : Bool) (a : Option Bool) (w : World Core)
      → (admit_reader deps op id c r b a w).1.core ≡ w.core
  unfolding admit_reader
  reader_core c r b none w = refl
  reader_core c r b (some false) w = refl
  reader_core c r b (some true) w = refl

  reader_target :
      (c : Input) (r : TaskRecord) (b : Bool) (a : Option Bool) (w : World Core) (who : Input)
      (x : TaskRecord)
      → (admit_reader deps op id c r b a w).0 ≡ target who x
      → (a ≡ some true) × (b ≡ true) × (c ≡ who) × (r ≡ x)
  unfolding admit_reader
  reader_target c r b none w who x h = cc
  reader_target c r b (some false) w who x h = cc
  reader_target c r true (some true) w who x h = (refl, refl, cc, cc)
  reader_target c r false (some true) w who x h = cc

  templated_core :
      (c : Input) (r : TaskRecord) (t : Option Template) (w : World Core)
      → (admit_templated deps op id c r t w).1.core ≡ w.core
  unfolding admit_templated
  templated_core c r none w = refl
  templated_core c r (some t) w = reader_core c r t.claimable _ w

  stored_core :
      (c : Input) (s : Stored) (w : World Core) → (admit_stored deps op id c s w).1.core ≡ w.core
  unfolding admit_stored
  stored_core c absent w = refl
  stored_core c unreadable w = refl
  stored_core c (stored r) w = templated_core c r (deps.template_of r) w

  target_core :
      (caller : Option Input) (w : World Core) → (claim_target deps op id caller w).1.core ≡ w.core
  unfolding claim_target admit_claimant
  target_core none w = ground arith
  target_core (some c) w = elim (Bool-cases (id == "")) [
    | inl y ↦ rw y
    | inr n ↦ elim (Bool-cases (is_user c.kind)) [
      | inr y ↦ rw (n, y)
      | inl k ↦ elim (Bool-cases (c.user_id == "")) [
        | inl y ↦ rw (n, k, y)
        | inr m ↦ rw (n, k, m) (stored_core c (deps.get_task id w.core) w)
      ]
    ]
  ]

  reader_refuses :
      (c : Input) (r : TaskRecord) (b : Bool) (a : Option Bool) (w : World Core)
      → (admit_reader deps op id c r b a w).0 ≢ answered no_content
  unfolding admit_reader
  reader_refuses c r b none w h = cc
  reader_refuses c r b (some false) w h = cc
  reader_refuses c r true (some true) w h = cc
  reader_refuses c r false (some true) w h = cc

  stored_refuses :
      (c : Input) (s : Stored) (w : World Core)
      → (admit_stored deps op id c s w).0 ≢ answered no_content
  unfolding admit_stored admit_templated
  stored_refuses c absent w h = cc
  stored_refuses c unreadable w h = cc
  stored_refuses c (stored r) w h = elim (Option-cases (deps.template_of r)) [
    | inl n ↦ (let z : answered internal ≡ answered no_content = rw n at h in cc)
    | inr (t, p) ↦
        reader_refuses c r t.claimable (readable (resolve deps.catalog c t.read_roles r.case_id)) w
          (rw p at h)
  ]

  -- No refusal reads as a success.
  target_refuses :
      (caller : Option Input) (w : World Core)
      → (claim_target deps op id caller w).0 ≢ answered no_content
  unfolding claim_target admit_claimant
  target_refuses none w h = ground arith
  target_refuses (some c) w h = stored_refuses c (deps.get_task id w.core) w (ground arith)

  kind_of : (k : PrincipalKind) → is_user k ≡ true → k ≡ kind_user
  kind_of kind_user h = refl
  kind_of kind_client h = cc
  kind_of kind_system h = cc

  stored-MayClaim :
      (c : Input) (w : World Core) (who : Input) (x : TaskRecord) (s : Stored)
      (t : TaskRecord → Option Template)
      → c.kind ≡ kind_user
      → (c.user_id == "") ≡ false
      → deps.get_task id w.core ≡ s
      → deps.template_of ≡ t
      → (admit_stored deps op id c s w).0 ≡ target who x
      → MayClaim deps id (some c) w.core who x
  unfolding admit_stored admit_templated
  stored-MayClaim c w who x absent t k u e q h = absurd (cc)
  stored-MayClaim c w who x unreadable t k u e q h = absurd (cc)
  stored-MayClaim c w who x (stored r) t k u e q h = elim (Option-cases (deps.template_of r)) [
    | inl n ↦ absurd (let z : answered internal ≡ target who x = rw n at h in cc)
    | inr (tp, p) ↦
        let h' : (admit_reader deps op id c r tp.claimable
              (readable (resolve deps.catalog c tp.read_roles r.case_id)) w).0
            ≡ target who x =
          rw p at h in
        let (a, b, same, same') = reader_target c r tp.claimable _ w who x h' in
        let (claims, o) = readable_ok _ a in
        subst (λ (y : TaskRecord). MayClaim deps id (some c) w.core who y) same'
          (subst (λ (y : Input). MayClaim deps id (some c) w.core y r) same
            (record {
              present = refl;
              a_user = k;
              identified = u;
              is_stored = e;
              template = tp;
              templated = p;
              claimable = b;
              claims = claims;
              reads = o;
            }))
  ]

  target-MayClaim :
      (caller : Option Input) (w : World Core) (who : Input) (x : TaskRecord)
      → (claim_target deps op id caller w).0 ≡ target who x
      → MayClaim deps id caller w.core who x
  unfolding claim_target admit_claimant
  target-MayClaim none w who x h = absurd (ground arith)
  target-MayClaim (some c) w who x h =
      let (n, k, m, h') : ((id == "") ≡ false)
          × (is_user c.kind ≡ true)
          × ((c.user_id == "") ≡ false)
          × ((admit_stored deps op id c (deps.get_task id w.core) w).0 ≡ target who x) =
        ground arith in
      stored-MayClaim c w who x _ _ (kind_of c.kind k) m refl refl h'
