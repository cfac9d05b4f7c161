-- ===== src/Retry.antt =====
-- external-integration/customs/asycuda/retry.go: callbacks that arrive early are held, and applied
-- again until they land.
pub mod Loop
pub mod Pending
mod Examples
use Prim.Native.String.{◌++◌}
use nsw_srilanka.Common.{
  ℕ, zero, suc, ◌+◌, ◌*◌, min, String, Bool, true, false, Option, none, some, List, [], ◌∷◌, ◌==◌,
  not, ltb, keep, contains, if◌then◌else◌,
}

-- callbackRetryTiming
pub record Timing : Type 0 where
  pub initial : ℕ
  pub max : ℕ
  pub window : ℕ

-- Callback
pub record Callback : Type 0 where
  pub event_type : String
  pub body : String

-- The sentinel errors that a callback may end with, those of cusdec and of cdn apart; `other` is
-- any failure without one.
pub data CallbackError : Type 0 where
  invalid_callback : CallbackError
  cusdec_workflow_not_found cusdec_case_not_recorded : CallbackError
  cusdec_not_recorded cusdec_task_not_parked cusdec_not_found_by_ref : CallbackError
  cdn_not_found_by_edge_id cdn_case_not_recorded : CallbackError
  cdn_not_recorded cdn_task_not_parked cdn_not_found_by_ref : CallbackError
  other : CallbackError

-- isPermanent
abbrev pub is_permanent : CallbackError → Bool
is_permanent invalid_callback = true
is_permanent cusdec_workflow_not_found = true
is_permanent cusdec_case_not_recorded = true
is_permanent cdn_not_found_by_edge_id = true
is_permanent cdn_case_not_recorded = true
is_permanent _ = false

-- isEarly
abbrev pub is_early : CallbackError → Bool
is_early cusdec_not_recorded = true
is_early cusdec_task_not_parked = true
is_early cusdec_not_found_by_ref = true
is_early cdn_not_recorded = true
is_early cdn_task_not_parked = true
is_early cdn_not_found_by_ref = true
is_early _ = false

-- How the retries of a callback end, each with the number of the last attempt.
pub data Ending : Type 0 where
  applied cannot expired : ℕ → Ending
  out_of_fuel : Ending

-- The outside of one callback: how each attempt ends, `none` for success, and the time that each
-- takes beyond its wait.
pub record Attempts : Type 0 where
  pub apply : ℕ → Option CallbackError
  pub lag : ℕ → ℕ

module _ (t : Timing) (a : Attempts) (give_up_at : ℕ) where
  -- After an attempt: done, given up, or the rest of the loop, which is given the next wait.
  pub after_attempt : ℕ → ℕ → ℕ → Option CallbackError → Ending → Ending
  after_attempt n wait now none rest = applied n
  after_attempt n wait now (some e) rest =
      if is_permanent e
      then cannot n
      else if ltb give_up_at (now + min (2 * wait) t.max)
      then expired n
      else rest

  -- The body of retry, at attempt `n` and the given wait, begun at `now`.
  pub attempt_from : ℕ → ℕ → ℕ → ℕ → Ending
  unfolding after_attempt
  attempt_from zero n wait now = out_of_fuel
  attempt_from (suc fuel) n wait now =
      let at = now + wait + a.lag n in
      let rest = attempt_from fuel (suc n) (min (2 * wait) t.max) at in
      after_attempt n wait at (a.apply n) rest

-- retry, begun at `now`
unfoldable pub retry : Timing → Attempts → ℕ → Ending
unfolding attempt_from
retry t a now = attempt_from t a (now + t.window) (suc t.window) 1 t.initial now

-- The key of a held callback; `digest` is the first 24 hexadecimal digits of a SHA-256 sum.
abbrev pub key_of : (String → String) → Callback → String
key_of digest cb = cb.event_type ++ (" " ++ digest cb.body)

-- schedule: the keys that are pending, and whether a retry is started.
unfoldable pub schedule : (String → String) → Callback → List String → List String × Bool
schedule digest cb pending =
    let key = key_of digest cb in
    if contains pending key then (pending, false) else (key ∷ pending, true)

-- The end of a retry, however it ends.
unfoldable pub release : String → List String → List String
release key pending = keep (λ k. not (k == key)) pending
