-- ===== src/Claims.antt =====
-- internal/tasks/claim_handler.go: claiming a task, taking a claim over, and releasing it.
pub mod Gate
mod Examples
use nsw_srilanka.Common.{
  String, ◌==◌, Bool, true, false, ◌&&◌, not, Option, none, some, List, [], ◌∷◌, ◌++◌, Dict,
  if◌then◌else◌,
}
use nsw_srilanka.Taskauthz.{
  PrincipalKind, kind_user, kind_client, kind_system, Input, Catalog, denied, Answer, ok, err,
}
use nsw_srilanka.Taskauthz.Read.{resolve}

-- What is read of a core task record.
pub record TaskRecord : Type 0 where
  pub task_id : String
  pub case_id : String
  pub state : String
  pub claimed_by : String

-- What is read of a core task template.
pub record Template : Type 0 where
  pub claimable : Bool
  pub read_roles : List String

-- The answer of the task store.
pub data Stored : Type 0 where
  absent unreadable : Stored
  stored : TaskRecord → Stored

-- The errors of the core task manager; `broken` is any other.
pub data ClaimError : Type 0 where
  task_not_found claim_held task_completed not_claim_holder holder_required broken : ClaimError

-- The core library: the task store, the template of a record (`none` where it cannot be resolved),
-- and the two operations on claims, which answer with their error, if any. `completed` is
-- store.StateCompleted.
pub record Deps (Core : Type 0) : Type 0 where
  pub get_task : String → Core → Stored
  pub template_of : TaskRecord → Option Template
  pub claim_task : String → String → Core → Option ClaimError × Core
  pub release_task : String → String → Core → Option ClaimError × Core
  pub completed : String
  pub catalog : Catalog

-- takeover
pub record Takeover : Type 0 where
  pub previous : String
  pub released : Bool

-- An entry of the audit trail.
pub record Entry : Type 0 where
  pub task_id : String
  pub operation : String
  pub takeover : Option Takeover
  pub error : String

pub record World (Core : Type 0) : Type 0 where
  pub core : Core
  pub audit : List Entry

-- The answers of the two routes.
pub data Response : Type 0 where
  no_content id_required authentication_required users_only : Response
  not_found claims_off claim_changed complete not_holder internal : Response

-- isClaimHolder
abbrev is_user : PrincipalKind → Bool
is_user kind_user = true
is_user _ = false

unfoldable pub is_claim_holder : Input → TaskRecord → Bool
is_claim_holder caller record' =
    is_user caller.kind && not (caller.user_id == "") && (record'.claimed_by == caller.user_id)

-- Whom a claim or a release is for, or the answer that refuses it.
pub data Target : Type 0 where
  answered : Response → Target
  target : Input → TaskRecord → Target

-- readable: `none` for a failure that is not a denial.
abbrev readable : Answer (Dict Bool) → Option Bool
readable (ok claims) = some true
readable (err denied) = some false
readable (err x) = none

module _ {Core : Type 0} where
  -- auditClaim
  unfoldable pub audit_claim : String → String → Option Takeover → String → World Core → World Core
  audit_claim id op tk error w = record w {
    audit = w.audit ++ record { task_id = id; operation = op; takeover = tk; error = error } ∷ [];
  }

  -- answerClaim
  pub answer_claim :
      String → String → Option Takeover → Option ClaimError → World Core → Response × World Core
  unfolding audit_claim
  answer_claim op id tk none w = (no_content, audit_claim id op tk "" w)
  answer_claim op id tk (some task_not_found) w = (not_found, w)
  answer_claim op id tk (some claim_held) w =
      (claim_changed, audit_claim id op tk "task claim changed" w)
  answer_claim op id tk (some task_completed) w =
      (complete, audit_claim id op tk "task is completed" w)
  answer_claim op id tk (some not_claim_holder) w =
      (not_holder, audit_claim id op tk "task is claimed by another user" w)
  answer_claim op id tk (some holder_required) w = (authentication_required, w)
  answer_claim op id tk (some broken) w = (internal, w)

abbrev as_held : ClaimError → ClaimError
as_held not_claim_holder = claim_held
as_held e = e

module _ {Core : Type 0} (deps : Deps Core) where
  admit_reader :
      String → String → Input → TaskRecord → Bool → Option Bool → World Core → Target × World Core
  unfolding audit_claim
  admit_reader op id caller r claimable none w = (answered internal, w)
  admit_reader op id caller r claimable (some false) w =
      (answered not_found, audit_claim id op none "task read access denied" w)
  admit_reader op id caller r claimable (some true) w =
      (if claimable then target caller r else answered claims_off, w)

  admit_templated :
      String → String → Input → TaskRecord → Option Template → World Core → Target × World Core
  unfolding admit_reader resolve
  admit_templated op id caller r none w = (answered internal, w)
  admit_templated op id caller r (some t) w =
      admit_reader op id caller r t.claimable
        (readable (resolve deps.catalog caller t.read_roles r.case_id)) w

  admit_stored : String → String → Input → Stored → World Core → Target × World Core
  unfolding admit_templated
  admit_stored op id caller absent w = (answered not_found, w)
  admit_stored op id caller unreadable w = (answered internal, w)
  admit_stored op id caller (stored r) w = admit_templated op id caller r (deps.template_of r) w

  -- admitClaimant
  unfoldable pub admit_claimant : String → String → Input → World Core → Target × World Core
  unfolding admit_stored
  admit_claimant op id caller w = admit_stored op id caller (deps.get_task id w.core) w

  -- claimant
  of_claimant : String → String → Option Input → World Core → Target × World Core
  unfolding admit_claimant
  of_claimant op id none w = (answered authentication_required, w)
  of_claimant op id (some caller) w =
      if not (is_user caller.kind)
      then (answered users_only, w)
      else if caller.user_id == ""
      then (answered authentication_required, w)
      else admit_claimant op id caller w

  -- claimTarget
  unfoldable pub claim_target : String → String → Option Input → World Core → Target × World Core
  unfolding of_claimant
  claim_target op id caller w =
      if id == "" then (answered id_required, w) else of_claimant op id caller w

  claim_from : String → String → Option Takeover → String → World Core → Response × World Core
  unfolding answer_claim
  claim_from op id tk user w =
      let r = deps.claim_task id user w.core in answer_claim op id tk r.0 (record w { core = r.1 })

  after_release :
      String → String → String → Option ClaimError × Core → World Core → Response × World Core
  unfolding claim_from
  after_release id previous user (some e, core) w =
      answer_claim "takeover" id (some (record { previous = previous; released = false }))
        (some (as_held e)) (record w { core = core })
  after_release id previous user (none, core) w =
      claim_from "takeover" id (some (record { previous = previous; released = true })) user
        (record w { core = core })

  claim : String → Target × World Core → Response × World Core
  unfolding after_release
  claim id (answered r, w) = (r, w)
  claim id (target caller r, w) =
      if r.state == deps.completed
      then answer_claim "claim" id none (some task_completed) w
      else if not (r.claimed_by == "") && not (r.claimed_by == caller.user_id)
      then after_release id r.claimed_by caller.user_id (deps.release_task id r.claimed_by w.core) w
      else claim_from "claim" id none caller.user_id w

  -- HandleClaimTask
  unfoldable pub handle_claim : String → Option Input → World Core → Response × World Core
  unfolding claim claim_target
  handle_claim id caller w = claim id (claim_target "claim" id caller w)

  release : String → Target × World Core → Response × World Core
  unfolding answer_claim
  release id (answered r, w) = (r, w)
  release id (target caller r, w) =
      let q = deps.release_task id caller.user_id w.core in
      answer_claim "release" id none q.0 (record w { core = q.1 })

  -- HandleReleaseTask
  unfoldable pub handle_release : String → Option Input → World Core → Response × World Core
  unfolding release claim_target
  handle_release id caller w = release id (claim_target "release" id caller w)
