-- ===== src/Retry/Loop.antt =====
-- That the retries of asycuda/retry.go come to an end, and when.
use nsw_srilanka.Common.{
  ℕ, zero, suc, ◌+◌, ◌*◌, ◌≤◌, ◌<◌, min, true, false, Option, none, some, ◌≡◌, refl, inl, inr, ltb,
  Bool-cases, arith, eqb, subst, sym,
}
use nsw_srilanka.Retry.{
  Timing, CallbackError, invalid_callback, cusdec_workflow_not_found, cusdec_case_not_recorded,
  cdn_not_found_by_edge_id, cdn_case_not_recorded, cusdec_not_recorded, cusdec_task_not_parked,
  cusdec_not_found_by_ref, cdn_not_recorded, cdn_task_not_parked, cdn_not_found_by_ref, other,
  is_permanent, is_early, Ending, applied, cannot, expired, Attempts, after_attempt, attempt_from,
  retry,
}

-- The errors that no retry can fix, those of isPermanent.
pub data Hopeless : CallbackError → Type 0 where
  malformed : Hopeless invalid_callback
  no_declaration_flow : Hopeless cusdec_workflow_not_found
  no_declaration_case : Hopeless cusdec_case_not_recorded
  no_note : Hopeless cdn_not_found_by_edge_id
  no_note_case : Hopeless cdn_case_not_recorded

permanent-Hopeless : (e : CallbackError) → is_permanent e ≡ true → Hopeless e
permanent-Hopeless invalid_callback h = malformed
permanent-Hopeless cusdec_workflow_not_found h = no_declaration_flow
permanent-Hopeless cusdec_case_not_recorded h = no_declaration_case
permanent-Hopeless cdn_not_found_by_edge_id h = no_note
permanent-Hopeless cdn_case_not_recorded h = no_note_case
permanent-Hopeless cusdec_not_recorded h = cc
permanent-Hopeless cusdec_task_not_parked h = cc
permanent-Hopeless cusdec_not_found_by_ref h = cc
permanent-Hopeless cdn_not_recorded h = cc
permanent-Hopeless cdn_task_not_parked h = cc
permanent-Hopeless cdn_not_found_by_ref h = cc
permanent-Hopeless other h = cc

Hopeless-permanent : {e : CallbackError} → Hopeless e → is_permanent e ≡ true
Hopeless-permanent malformed = refl
Hopeless-permanent no_declaration_flow = refl
Hopeless-permanent no_declaration_case = refl
Hopeless-permanent no_note = refl
Hopeless-permanent no_note_case = refl

passing-Hopeless : (e : CallbackError) → is_permanent e ≡ false → ¬ Hopeless e
passing-Hopeless e h p = let q = Hopeless-permanent p in cc

-- The wait before an attempt, doubled from one to the next up to the longest.
unfoldable pub wait_of : Timing → ℕ → ℕ
wait_of t zero = t.initial
wait_of t (suc k) = min (2 * wait_of t k) t.max

-- When the j-th attempt after the first ends, of retries that start at `start`.
unfoldable pub ended : Timing → Attempts → ℕ → ℕ → ℕ
unfolding wait_of
ended t a start zero = start + wait_of t 0 + a.lag 1
ended t a start (suc j) = ended t a start j + wait_of t (suc j) + a.lag (suc (suc j))

-- An attempt failed for an error that may pass, with time left to wait for the next.
pub record WentOn (t : Timing) (a : Attempts) (start i : ℕ) : Type 0 where
  pub error : CallbackError
  pub failed : a.apply (suc i) ≡ some error
  pub passing : ¬ Hopeless error
  pub in_time : ended t a start i + wait_of t (suc i) ≤ start + t.window

-- The retries ended at an attempt, the j-th after the first, for what came of that attempt, after all
-- the earlier ones went on. At the shortest wait those fitted into the window.
pub data EndedBy (t : Timing) (a : Attempts) (start floor : ℕ) : Ending → Type 0 where
  by_success :
      (j : ℕ)
      → j * floor ≤ t.window
      → ((i : ℕ) → i < j → WentOn t a start i)
      → a.apply (suc j) ≡ none
      → EndedBy t a start floor (applied (suc j))
  by_error :
      (j : ℕ) (e : CallbackError)
      → j * floor ≤ t.window
      → ((i : ℕ) → i < j → WentOn t a start i)
      → a.apply (suc j) ≡ some e
      → Hopeless e
      → EndedBy t a start floor (cannot (suc j))
  by_time :
      (j : ℕ) (e : CallbackError)
      → j * floor ≤ t.window
      → ((i : ℕ) → i < j → WentOn t a start i)
      → a.apply (suc j) ≡ some e
      → ¬ Hopeless e
      → start + t.window < ended t a start j + wait_of t (suc j)
      → EndedBy t a start floor (expired (suc j))

module _ (t : Timing) (a : Attempts) (start floor : ℕ) (positive : 1 ≤ floor)
    (below : floor ≤ t.max) where
  went_further :
      (j : ℕ)
      → ((i : ℕ) → i < j → WentOn t a start i)
      → WentOn t a start j
      → (i : ℕ) → i < suc j
      → WentOn t a start i
  went_further j before last i b = elim (Bool-cases (eqb i j)) [
    | inl y ↦ subst (WentOn t a start) (let q : i ≡ j = ground arith in sym q) last
    | inr n ↦ before i (ground arith)
  ]

  after_ends :
      (j wait at : ℕ) (o : Option CallbackError) (rest : Ending)
      → j * floor ≤ t.window
      → wait ≡ wait_of t j
      → at ≡ ended t a start j
      → ((i : ℕ) → i < j → WentOn t a start i)
      → a.apply (suc j) ≡ o
      → (at + min (2 * wait) t.max ≤ start + t.window
          → WentOn t a start j
          → EndedBy t a start floor rest)
      → EndedBy t a start floor (after_attempt t a (start + t.window) (suc j) wait at o rest)
  unfolding after_attempt wait_of
  after_ends j wait at none rest fits w now before e later = by_success j fits before e
  after_ends j wait at (some x) rest fits w now before e later =
      elim (Bool-cases (is_permanent x)) [
        | inl y ↦ rw y (by_error j x fits before e (permanent-Hopeless x y))
        | inr n ↦
            let next : min (2 * wait) t.max ≡ wait_of t (suc j) = rw w in
            elim (Bool-cases (ltb (start + t.window) (at + min (2 * wait) t.max))) [
              | inl y ↦
                  let over : start + t.window < at + min (2 * wait) t.max = ground arith in
                  rw (n, y)
                    (by_time j x fits before e (passing-Hopeless x n)
                      (subst (λ z. start + t.window < z) (rw (now, next) refl) over))
              | inr m ↦
                  let ok : at + min (2 * wait) t.max ≤ start + t.window = ground arith in
                  rw (n, m)
                    (later ok (record {
                      error = x;
                      failed = e;
                      passing = passing-Hopeless x n;
                      in_time = subst (λ z. z ≤ start + t.window) (rw (now, next) refl) ok;
                    }))
            ]
      ]

  from_attempt :
      (fuel j wait now : ℕ)
      → floor ≤ wait
      → start + t.window < now + fuel
      → start + j * floor ≤ now
      → now ≤ start + t.window
      → wait ≡ wait_of t j
      → now + wait_of t j + a.lag (suc j) ≡ ended t a start j
      → ((i : ℕ) → i < j → WentOn t a start i)
      → EndedBy t a start floor (attempt_from t a (start + t.window) fuel (suc j) wait now)
  unfolding attempt_from ended wait_of
  from_attempt zero j wait now w f s e p q before = absurd (omega arith)
  from_attempt (suc fuel) j wait now w f s e p q before =
      let at = now + wait + a.lag (suc j) in
      let ends : at ≡ ended t a start j = rw p q in
      after_ends j wait at (a.apply (suc j)) _ (omega arith) p ends before refl (λ k on.
        from_attempt fuel (suc j) (min (2 * wait) t.max) at (ground arith) (ground arith)
          (ground arith) (ground arith) (rw p) (rw ends) (went_further j before on))

-- Where the first wait and the longest one are positive, the retries of a callback end, by its success,
-- by one of the five errors that no retry can fix, or by the time: each attempt comes a wait after the
-- end of the one before, the wait doubles up to the longest, and there is another attempt exactly when
-- the last failed for an error that may pass and the next wait is over within the window. Of the
-- attempts but the last, no more were made than fit the window at the shorter of the two waits.
pub retry_ends :
    (t : Timing) (a : Attempts) (now : ℕ)
    → 1 ≤ t.initial
    → 1 ≤ t.max
    → EndedBy t a now (min t.initial t.max) (retry t a now)
unfolding retry ended wait_of
retry_ends t a now i m =
    from_attempt t a now (min t.initial t.max) (ground arith) (ground arith) (suc t.window) 0
      t.initial now (ground arith) (omega arith) (omega arith) (omega arith) refl refl
      (λ i b. absurd (omega arith))

-- An error that a callback is held for is one that its retries go on after.
pub early_retried : (e : CallbackError) → is_early e ≡ true → is_permanent e ≡ false
early_retried e h = ground arith
