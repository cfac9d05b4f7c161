-- ===== src/Cdn/Callbacks/Moves/Callback.antt =====
-- The effect of each callback of cdn/service.go, cancellation.go and amendment.go on the notes.
use nsw_srilanka.Common.{
  ◌==◌, Bool, true, false, ◌&&◌, not, Option, none, some, List, ◌≡◌, refl, subst, inl, inr, In, ltb,
  Bool-cases, Option-cases, arith, if◌then◌else◌,
}
use nsw_srilanka.Common.Value.{Fields}
use nsw_srilanka.Cdn.{
  Reference, DispatchNoteStatus, submitted, integrated, failed, acknowledged, cancelled,
  DispatchNote, IntegrationResult, World, Found, unread, missing, row, as_found, used,
  get_by_edge_id, get_by_cdn_ref,
}
use nsw_srilanka.Cdn.Callbacks.{
  Wiring, Amendment, is_recorded, is_failed, with_result, resume_integration_wait,
  resume_acknowledgment_wait, resume_cancelled_wait, integrate, process_integration_result,
  acknowledge_in, acknowledge, process_acknowledgment, cancel_in, cancel, process_cancellation,
  open_flow, amend, process_amendment,
}
use nsw_srilanka.Cdn.Callbacks.Moves.{rank, Moves, Effect, resume_notes, update-Effect, next-Effect}
use nsw_srilanka.Common.Tables.{first_row, first_row-In}

module _ {Engine : Type 0} where
  module _ (s : Wiring Engine) where
    integrate-Effect :
        (req : IntegrationResult) (f : Found) (w : World Engine)
        → ((n : DispatchNote) → f ≡ row n → In n w.notes)
        → Effect w (integrate s req f w)
    unfolding integrate resume_integration_wait with_result
    integrate-Effect req unread w h = inl refl
    integrate-Effect req missing w h = inl refl
    integrate-Effect req (row note) w h = elim (Bool-cases (is_recorded note.status)) [
      | inl y ↦ rw y (inl (resume_notes s note _ _ true w))
      | inr n ↦ elim (Bool-cases (not req.integrated && is_failed note.status)) [
        | inl y ↦ rw (n, y) (inl (resume_notes s note _ _ true w))
        | inr m ↦
            rw (n, m)
              (next-Effect w _ note (with_result note req) (resume_notes s note _ _ false w)
                (h note refl) (moves n m))
      ]
    ]
      where
        moves :
            is_recorded note.status ≡ false
            → (not req.integrated && is_failed note.status) ≡ false
            → Moves note (with_result note req)
        moves n m = elim (Bool-cases req.integrated) [
          | inl y ↦ record {
            same_id = rw y;
            same_edge = rw y;
            same_case = rw y;
            same_workflow = rw y;
            further = rw y (ground arith);
            reference = λ k. cc;
          }
          | inr x ↦ record {
            same_id = rw x;
            same_edge = rw x;
            same_case = rw x;
            same_workflow = rw x;
            further = rw x (ground arith);
            reference = λ k. cc;
          }
        ]

    Moves-to :
        (note : DispatchNote) (st : DispatchNoteStatus)
        → ltb (rank note.status) (rank st) ≡ true
        → Moves note (record note { status = st })
    Moves-to note st h = record {
      same_id = refl;
      same_edge = refl;
      same_case = refl;
      same_workflow = refl;
      further = h;
      reference = λ k. refl;
    }

    acknowledge-Effect :
        (f : Found) (w : World Engine)
        → ((n : DispatchNote) → f ≡ row n → In n w.notes)
        → Effect w (acknowledge s f w)
    unfolding acknowledge acknowledge_in resume_acknowledgment_wait
    acknowledge-Effect unread w h = inl refl
    acknowledge-Effect missing w h = inl refl
    acknowledge-Effect (row note) w h = go note.status refl
      where
        go : (st : DispatchNoteStatus) → note.status ≡ st → Effect w (acknowledge_in s note st w)
        go acknowledged e = inl (resume_notes s note _ _ true w)
        go cancelled e = inl refl
        go integrated e =
            next-Effect w _ note _ (resume_notes s note _ _ false w) (h note refl)
              (Moves-to note acknowledged (rw e))
        go submitted e = inl refl
        go failed e = inl refl

    cancel-Effect :
        (f : Found) (w : World Engine)
        → ((n : DispatchNote) → f ≡ row n → In n w.notes)
        → Effect w (cancel s f w)
    unfolding cancel cancel_in resume_cancelled_wait
    cancel-Effect unread w h = inl refl
    cancel-Effect missing w h = inl refl
    cancel-Effect (row note) w h = go note.status refl
      where
        go : (st : DispatchNoteStatus) → note.status ≡ st → Effect w (cancel_in s note st w)
        go cancelled e = inl (resume_notes s note _ _ true w)
        go acknowledged e =
            update-Effect w w note _ refl (h note refl) (Moves-to note cancelled (rw e))
        go integrated e =
            next-Effect w _ note _ (resume_notes s note _ _ false w) (h note refl)
              (Moves-to note cancelled (rw e))
        go submitted e = inl refl
        go failed e = inl refl

    pub amend_notes :
        (req : Amendment) (f : Found) (w : World Engine) → (amend s req f w).1.notes ≡ w.notes
    unfolding amend open_flow
    amend_notes req unread w = refl
    amend_notes req missing w = refl
    amend_notes req (row note) w = elim (Bool-cases (note.case_id == "")) [
      | inl y ↦ rw y
      | inr n ↦ rw n (go s.flows req.cdn)
    ]
      where
        go : (o : _) (c : Option Fields) → (open_flow s note req o c w).1.notes ≡ w.notes
        go none c = refl
        go (some run) none = refl
        go (some run) (some c) = refl

    read-In :
        (b : Bool) (p : DispatchNote → Bool) (ns : List DispatchNote) (n : DispatchNote)
        → (if b then unread else as_found (first_row p ns)) ≡ row n
        → In n ns
    read-In b p ns n h = elim (Option-cases (first_row p ns)) [
      | inl e ↦ absurd (ground arith)
      | inr (x, e) ↦
          let same : x ≡ n = ground arith in subst (λ z. In z ns) same (first_row-In p ns x e).0
    ]

    pub process_integration-Effect :
        (req : IntegrationResult) (w : World Engine) → Effect w (process_integration_result s req w)
    unfolding process_integration_result get_by_edge_id
    process_integration-Effect req w =
        integrate-Effect req _ (used w) (λ n h. read-In _ _ w.notes n h)

    pub process_acknowledgment-Effect :
        (ref : Reference) (w : World Engine) → Effect w (process_acknowledgment s ref w)
    unfolding process_acknowledgment get_by_cdn_ref
    process_acknowledgment-Effect ref w =
        acknowledge-Effect _ (used w) (λ n h. read-In _ _ w.notes n h)

    pub process_cancellation-Effect :
        (ref : Reference) (w : World Engine) → Effect w (process_cancellation s ref w)
    unfolding process_cancellation get_by_cdn_ref
    process_cancellation-Effect ref w = cancel-Effect _ (used w) (λ n h. read-In _ _ w.notes n h)

    pub process_amendment-Effect :
        (req : Amendment) (w : World Engine) → Effect w (process_amendment s req w)
    unfolding process_amendment get_by_cdn_ref
    process_amendment-Effect req w = inl (amend_notes req (get_by_cdn_ref req.cdn_ref w).0 (used w))
