-- ===== src/Claims/Gate/Holders.antt =====
-- Who changes a claim, and how (internal/tasks/claim_handler.go).
use nsw_srilanka.Common.{
  String, ◌==◌, false, ◌&&◌, not, Option, none, some, ◌≡◌, refl, sym, ap, ◌∙◌, subst, inl, inr, ◌⊎◌,
  Bool-cases, arith,
}
use nsw_srilanka.Taskauthz.{Input}
use nsw_srilanka.Claims.{
  TaskRecord, ClaimError, task_completed, Deps, World, Response, no_content, Target, answered,
  target, answer_claim, claim_target, claim_from, after_release, claim, handle_claim, release,
  handle_release, Takeover, as_held,
}
use nsw_srilanka.Claims.Gate.{
  MayClaim, answer_core, answer_done, target_core, target-MayClaim, target_refuses,
}

module _ {Core : Type 0} (deps : Deps Core) (id : String) where
  claim_core :
      (t : Target) (v : World Core)
      → ((claim deps id (t, v)).1.core ≡ v.core)
        ⊎ ((who : Input) × (r : TaskRecord) × (t ≡ target who r)
            × ((r.state == deps.completed) ≡ false))
  unfolding claim
  claim_core (answered x) v = inl refl
  claim_core (target who r) v = elim (Bool-cases (r.state == deps.completed)) [
    | inl y ↦ inl (rw y (answer_core "claim" id none (some task_completed) v))
    | inr n ↦ inr (who, r, refl, n)
  ]

  release_core :
      (t : Target) (v : World Core)
      → ((release deps id (t, v)).1.core ≡ v.core)
        ⊎ ((who : Input) × (r : TaskRecord) × (t ≡ target who r))
  unfolding release
  release_core (answered x) v = inl refl
  release_core (target who r) v = inr (who, r, refl)

  from_done :
      (op : String) (tk : Option Takeover) (user : String) (v : World Core)
      → (claim_from deps op id tk user v).0 ≡ no_content
      → deps.claim_task id user v.core ≡ (none, (claim_from deps op id tk user v).1.core)
  unfolding claim_from
  from_done op tk user v h =
      let q = answer_done op id tk (deps.claim_task id user v.core).0 _ h in
      let c =
        answer_core op id tk (deps.claim_task id user v.core).0
          (record v { core = (deps.claim_task id user v.core).1 }) in
      λ i. (q i, sym c i)

  release_done :
      (previous user : String) (q : Option ClaimError × Core) (v : World Core)
      → (after_release deps id previous user q v).0 ≡ no_content
      → (mid : Core) × (q ≡ (none, mid))
        × (deps.claim_task id user mid ≡ (none, (after_release deps id previous user q v).1.core))
  unfolding after_release
  release_done previous user (some e, core) v h = absurd (
      let z : some (as_held e) ≡ none =
        answer_done "takeover" id (some (record { previous = previous; released = false }))
          (some (as_held e)) (record v { core = core }) h in
      cc)
  release_done previous user (none, core) v h =
      (core, refl, from_done "takeover" _ user (record v { core = core }) h)

  -- The core task manager has recorded the claim of `user`, after the release of another's claim or not.
  pub data Claimed (r : TaskRecord) (user : String) (before after : Core) : Type 0 where
    free :
        (not (r.claimed_by == "") && not (r.claimed_by == user)) ≡ false
        → deps.claim_task id user before ≡ (none, after)
        → Claimed r user before after
    taken_over :
        (mid : Core)
        → (r.claimed_by == "") ≡ false
        → (r.claimed_by == user) ≡ false
        → deps.release_task id r.claimed_by before ≡ (none, mid)
        → deps.claim_task id user mid ≡ (none, after)
        → Claimed r user before after

  claim_done :
      (t : Target) (v : World Core)
      → (claim deps id (t, v)).0 ≡ no_content
      → (t ≡ answered no_content)
        ⊎ ((who : Input) × (r : TaskRecord) × (t ≡ target who r)
            × Claimed r who.user_id v.core (claim deps id (t, v)).1.core)
  unfolding claim
  claim_done (answered x) v h = inl (ap answered h)
  claim_done (target who r) v h = elim (Bool-cases (r.state == deps.completed)) [
    | inl y ↦ absurd (
        let k : answer_claim "claim" id none (some task_completed) v
            ≡ claim deps id (target who r, v) =
          rw y in
        let z =
          answer_done "claim" id none (some task_completed) v
            (ap (λ (x : Response × World Core). x.0) k ∙ h) in
        cc)
    | inr n ↦ elim (Bool-cases (not (r.claimed_by == "") && not (r.claimed_by == who.user_id))) [
      | inl y ↦
          let (a, b) : ((r.claimed_by == "") ≡ false) × ((r.claimed_by == who.user_id) ≡ false) =
            ground arith in
          let (mid, p, q) =
            release_done r.claimed_by who.user_id (deps.release_task id r.claimed_by v.core) v
              (rw (n, y) at h) in
          inr (who, r, refl, rw (n, y) (taken_over mid a b p q))
      | inr m ↦
          inr (
            who,
            r,
            refl,
            rw (n, m) (free m (from_done "claim" none who.user_id v (rw (n, m) at h))),
          )
    ]
  ]

module _ {Core : Type 0} (deps : Deps Core) (id : String) (caller : Option Input)
    (w : World Core) where
  abbrev pub Admitted : Type 0
  Admitted = (who : Input) × (r : TaskRecord) × MayClaim deps id caller w.core who r

  -- A claim, a takeover or a release reaches the core task manager only for a user who has an id and can
  -- read the stored task, whose template lets it be claimed, and a claim or takeover only while the
  -- task is not completed.
  pub claims_gated :
      (((handle_claim deps id caller w).1.core ≡ w.core)
        ⊎ ((who : Input) × (r : TaskRecord) × MayClaim deps id caller w.core who r
            × ((r.state == deps.completed) ≡ false)))
      × (((handle_release deps id caller w).1.core ≡ w.core) ⊎ Admitted)
  unfolding handle_claim handle_release
  claims_gated =
      let c = claim_target deps "claim" id caller w in
      let r = claim_target deps "release" id caller w in
      (
        elim (claim_core deps id c.0 c.1) [
          | inl e ↦ inl (e ∙ target_core deps "claim" id caller w)
          | inr (who, x, q, n) ↦ inr (who, x, target-MayClaim deps "claim" id caller w who x q, n)
        ],
        elim (release_core deps id r.0 r.1) [
          | inl e ↦ inl (e ∙ target_core deps "release" id caller w)
          | inr (who, x, q) ↦ inr (who, x, target-MayClaim deps "release" id caller w who x q)
        ],
      )

  -- A claim that is answered with success was made by a user who may claim the task, and the
  -- last that the core task manager was asked is to record that user as its holder, which it
  -- did: at once where the task was free or the user's own, and otherwise after it released the
  -- recorded holder's claim.
  pub claim_recorded :
      (handle_claim deps id caller w).0 ≡ no_content
      → (who : Input) × (r : TaskRecord) × MayClaim deps id caller w.core who r
        × Claimed deps id r who.user_id w.core (handle_claim deps id caller w).1.core
  unfolding handle_claim
  claim_recorded h =
      let c = claim_target deps "claim" id caller w in
      elim (claim_done deps id c.0 c.1 h) [
        | inl e ↦ absurd (target_refuses deps "claim" id caller w e)
        | inr (who, r, q, d) ↦ (
          who,
          r,
          target-MayClaim deps "claim" id caller w who r q,
          subst (λ (k : Core). Claimed deps id r who.user_id k (claim deps id c).1.core)
              (target_core deps "claim" id caller w) d,
        )
      ]
