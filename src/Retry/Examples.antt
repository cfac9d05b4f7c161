-- ===== src/Retry/Examples.antt =====
-- Tests and instances for asycuda/retry.go.
use nsw_srilanka.Common.{
  ◌≡◌, refl, false, none, some, List, [], ◌∷◌, In, eqb, Distinct, arith, if◌then◌else◌, min,
}
use nsw_srilanka.Retry.{
  Timing, Callback, cdn_task_not_parked, Attempts, applied, expired, retry, key_of, schedule,
}
use nsw_srilanka.Retry.Loop.{EndedBy, retry_ends}
use nsw_srilanka.Retry.Pending.{Event, held, over, steps, held_once}

-- seconds: the timing of a deployment, shortened
abbrev timing : Timing
timing = record { initial = 5; max = 20; window = 100 }

-- a callback that lands at its third attempt
abbrev third : Attempts
third = record { apply = λ n. if eqb n 3 then none else some cdn_task_not_parked; lag = λ n. 1 }

abbrev never : Attempts
never = record { apply = λ n. some cdn_task_not_parked; lag = λ n. 0 }

test_third : retry timing third 7 ≡ applied 3
unfolding retry
test_third = refl

-- waits of 5, 10, 20, 20, 20 and 20
test_never : retry timing never 7 ≡ expired 6
unfolding retry
test_never = refl

retry_ends_example : EndedBy timing third 7 (min 5 20) (retry timing third 7)
retry_ends_example = retry_ends timing third 7 (omega arith) (omega arith)

abbrev cb : Callback
cb = record { event_type = "CDN_INTEGRATED"; body = "{}" }

abbrev events : List Event
events = held cb ∷ held cb ∷ over "x" ∷ []

held_once_example :
    Distinct (steps (λ b. b) events [])
    × (In (key_of (λ b. b) cb) (steps (λ b. b) events [])
        → schedule (λ b. b) cb (steps (λ b. b) events []) ≡ (steps (λ b. b) events [], false))
held_once_example = held_once (λ b. b) events cb
