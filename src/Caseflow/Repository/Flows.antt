-- ===== src/Caseflow/Repository/Flows.antt =====
-- The flows of a case, as the statements of internal/caseflow/repository.go change them.
use mathlib.Core.Option
use text.Mathlib.TextPositions.{eq_refl}
use nsw_srilanka.Common.{
  String, ◌==◌, eq_iff, Bool, true, false, not, ◌&&◌, ◌||◌, some, List, [], ◌∷◌, ◌++◌, ◌≡◌, refl,
  arith, any, any-append, if◌then◌else◌,
}
use nsw_srilanka.Caseflow.Rows.{CaseState, in_progress, finished, Flow}
use nsw_srilanka.Caseflow.Repository.{find_flow, update_flow, has_pending, is_completed}

abbrev pub has_flow : String → List Flow → Bool
has_flow c = any (λ f. f.case_id == c)

-- The state that the case's flows call for.
abbrev pub case_state : String → List Flow → CaseState
case_state c fs = if has_flow c fs && not (has_pending c fs) then finished else in_progress

pub has_pending-append :
    (c : String) (fs : List Flow) (f : Flow)
    → has_pending c (fs ++ f ∷ [])
      ≡ (has_pending c fs || ((f.case_id == c) && not (is_completed f.status)))
unfolding has_pending
has_pending-append c fs f =
    ground
      (arith, any-append {0} (λ g. (g.case_id == c) && not (is_completed g.status)) fs (f ∷ []))

pub find_flow-has_flow :
    (w : String) (fs : List Flow) (f : Flow)
    → find_flow w fs ≡ some f
    → has_flow f.case_id fs ≡ true
unfolding find_flow
find_flow-has_flow w [] f h = cc
find_flow-has_flow w (g ∷ fs) f h = ground (arith, eq_refl f.case_id, find_flow-has_flow w fs f)

module _ (w : String) (g : Flow → Flow) (same : (f : Flow) → (g f).case_id ≡ f.case_id) where
  pub has_flow-update_flow :
      (c : String) (fs : List Flow) → has_flow c (update_flow w g fs) ≡ has_flow c fs
  unfolding update_flow
  has_flow-update_flow c [] = refl
  has_flow-update_flow c (f ∷ fs) = ground (arith, same f, has_flow-update_flow c fs)

  -- A case whose flow is not the one updated keeps its pending flows.
  pub has_pending-update_ne :
      (c : String) (fs : List Flow) (f : Flow)
      → find_flow w fs ≡ some f
      → (f.case_id == c) ≡ false
      → has_pending c (update_flow w g fs) ≡ has_pending c fs
  unfolding update_flow find_flow has_pending
  has_pending-update_ne c [] f h n = refl
  has_pending-update_ne c (x ∷ fs) f h n = ground (arith, same x, has_pending-update_ne c fs f)

  pub has_pending-update_eq :
      (kept : (f : Flow) → is_completed (g f).status ≡ is_completed f.status) (c : String)
      (fs : List Flow)
      → has_pending c (update_flow w g fs) ≡ has_pending c fs
  unfolding update_flow has_pending
  has_pending-update_eq kept c [] = refl
  has_pending-update_eq kept c (x ∷ fs) =
      ground (arith, same x, kept x, has_pending-update_eq kept c fs)

  -- Completing a flow adds no pending one.
  pub has_pending-update_le :
      (done : (f : Flow) → is_completed (g f).status ≡ true) (c : String) (fs : List Flow)
      → has_pending c (update_flow w g fs) ≡ true
      → has_pending c fs ≡ true
  unfolding update_flow has_pending
  has_pending-update_le done c [] h = h
  has_pending-update_le done c (x ∷ fs) h =
      ground (arith, same x, done x, has_pending-update_le done c fs)

module _ (w : String) (g : Flow → Flow)
    (same : (f : Flow) → (g f).workflow_id ≡ f.workflow_id) where
  pub find_flow-update :
      (v : String) (fs : List Flow)
      → find_flow v (update_flow w g fs)
        ≡ (if w == v then Option.map g (find_flow v fs) else find_flow v fs)
  unfolding find_flow update_flow
  find_flow-update v [] = ground arith
  find_flow-update v (f ∷ fs) = ground (
    arith,
    same f,
    eq_iff w v,
    eq_iff f.workflow_id w,
    eq_iff f.workflow_id v,
    find_flow-update v fs,
  )

  pub update_flow-twice :
      ((f : Flow) → g (g f) ≡ g f)
      → (fs : List Flow) → update_flow w g (update_flow w g fs) ≡ update_flow w g fs
  unfolding update_flow
  update_flow-twice idem [] = refl
  update_flow-twice idem (f ∷ fs) = ground (arith, same f, idem f, update_flow-twice idem fs)
