-- ===== src/Claims/Examples.antt =====
-- Tests and instances for the claims of tasks, on a core library that holds one task's claim.
use nsw_srilanka.Common.{
  String, ◌==◌, true, false, Option, none, some, [], ◌∷◌, ◌≡◌, ◌⊎◌, refl, if◌then◌else◌,
}
use nsw_srilanka.Taskauthz.{kind_user, Input}
use nsw_srilanka.Claims.{
  TaskRecord, stored, ClaimError, claim_held, not_claim_holder, Deps, World, handle_claim,
  handle_release,
}
use nsw_srilanka.Claims.Gate.{MayClaim}
use nsw_srilanka.Claims.Gate.Holders.{Claimed, claims_gated, claim_recorded}

abbrev task : String → TaskRecord
task holder = record { task_id = "t1"; case_id = "c1"; state = "OPEN"; claimed_by = holder }

abbrev take : String → String → String → Option ClaimError × String
take id user holder =
    if holder == ""
    then (none, user)
    else if holder == user
    then (none, holder)
    else (some claim_held, holder)

abbrev drop : String → String → String → Option ClaimError × String
drop id user holder =
    if holder == user
    then (none, "")
    else if holder == ""
    then (none, "")
    else (some not_claim_holder, holder)

abbrev deps : Deps String
deps = record {
  get_task = λ id holder. stored (task holder);
  template_of = λ r. some (record { claimable = true; read_roles = [] });
  claim_task = take;
  release_task = drop;
  completed = "COMPLETED";
  catalog = record { roles = ("trader", "TRADER") ∷ []; clients = [] };
}

abbrev clerk : Input
clerk = record {
  kind = kind_user;
  roles = "TRADER" ∷ [];
  client_id = "";
  owned_roles = some (λ c. some (λ r. true));
  user_id = "u1";
}

abbrev held_by : String → World String
held_by holder = record { core = holder; audit = [] }

test_takeover : (handle_claim deps "t1" (some clerk) (held_by "u2")).1.core ≡ "u1"
unfolding handle_claim
test_takeover = refl

claim_recorded_example :
    (who : Input) × (r : TaskRecord) × MayClaim deps "t1" (some clerk) "u2" who r
    × Claimed deps "t1" r who.user_id "u2"
        (handle_claim deps "t1" (some clerk) (held_by "u2")).1.core
unfolding handle_claim
claim_recorded_example = claim_recorded deps "t1" (some clerk) (held_by "u2") refl

claims_gated_example :
    (((handle_claim deps "t1" none (held_by "u2")).1.core ≡ "u2")
      ⊎ ((who : Input) × (r : TaskRecord) × MayClaim deps "t1" none "u2" who r
          × ((r.state == "COMPLETED") ≡ false)))
    × (((handle_release deps "t1" none (held_by "u2")).1.core ≡ "u2")
        ⊎ ((who : Input) × (r : TaskRecord) × MayClaim deps "t1" none "u2" who r))
claims_gated_example = claims_gated deps "t1" none (held_by "u2")
