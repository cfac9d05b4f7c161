-- ===== src/Taskauthz/Read.antt =====
-- internal/tasks/readauthz: whether a caller may read a task, and the claims that shape its view.
pub mod Roles
pub mod Claims
pub mod Every
use Prim.Native.String.{◌++◌}
use nsw_srilanka.Common.{
  String, Bool, true, false, Option, none, some, List, [], ◌∷◌, keep, is_some, Dict, lookup, insert,
  if◌then◌else◌,
}
use nsw_srilanka.Taskauthz.{
  Input, Catalog, denied, Answer, ok, err, Eligibility, allows, eligible, role_names,
}

-- ClaimKey
abbrev pub claim_key : String → String
claim_key role = "role:" ++ role

-- allowedRoles: the admitted names, and whether the template declared any.
unfoldable pub allowed_roles : Catalog → List String → List String × Bool
unfolding role_names lookup
allowed_roles cat [] = (role_names cat, false)
allowed_roles cat (n ∷ ns) = (keep (λ m. is_some (lookup m cat.roles)) (n ∷ ns), true)

pub all_false : List String → Dict Bool
unfolding insert
all_false [] = []
all_false (n ∷ ns) = insert (claim_key n) false (all_false ns)

-- The claims of every eligible role, and whether there was one.
pub admit : Eligibility → List String → Dict Bool → Dict Bool × Bool
unfolding insert
admit e [] claims = (claims, false)
admit e (n ∷ ns) claims =
    let skipped = admit e ns claims in
    let more = admit e ns (insert (claim_key n) true claims) in
    if allows e n then (more.0, true) else skipped

pub first_role : Eligibility → List String → Option String
first_role e [] = none
first_role e (n ∷ ns) = let rest = first_role e ns in if allows e n then some n else rest

pub as_first : Option String → Dict Bool → Answer (Dict Bool)
unfolding insert
as_first none claims = err denied
as_first (some n) claims = ok (insert (claim_key n) true claims)

pub claims_for : Eligibility → List String → Bool → Dict Bool → Answer (Dict Bool)
unfolding admit first_role as_first
claims_for e allowed true claims = as_first (first_role e allowed) claims
claims_for e allowed false claims =
    let r = admit e allowed claims in if r.1 then ok r.0 else err denied

pub decide : Catalog → Answer Eligibility → List String × Bool → Answer (Dict Bool)
unfolding claims_for all_false role_names
decide cat (err x) allowed = err x
decide cat (ok e) allowed = claims_for e allowed.0 allowed.1 (all_false (role_names cat))

-- Resolve
unfoldable pub resolve : Catalog → Input → List String → String → Answer (Dict Bool)
unfolding decide allowed_roles eligible
resolve cat caller read_roles c =
    let allowed = allowed_roles cat read_roles in
    decide cat (eligible cat caller c allowed.0) allowed
