-- ===== src/Cdn/Callbacks/Answered.antt =====
-- What a result for a dispatch note (cdn/service.go, resume.go) that ends without an error has done, in
-- the words of the interface: the payload of the step, and the row.
use Prim.Native.String.{◌++◌}
use nsw_srilanka.Common.{
  ◌==◌, Bool, true, false, ◌&&◌, not, some, List, ◌≡◌, refl, sym, subst, ap, ◌∙◌, inl, inr, ◌⊎◌,
  Bool-cases, Distinct, if◌then◌else◌,
}
use nsw_srilanka.Common.Decimal.{decimal}
use nsw_srilanka.Common.Tables.{first_row, first_row-In, set_row, row_keys}
use nsw_srilanka.Common.Tables.Replacing.{Replaced, set_row-Replaced}
use nsw_srilanka.Common.Value.{bool, str, Fields, field_at}
use nsw_srilanka.Cdn.{
  DispatchNoteStatus, submitted, integrated, failed, acknowledged, cancelled, DispatchNote, row,
  Outcome, update, done, IntegrationResult, World, fails, used, get_by_edge_id, id_of, patched,
}
use nsw_srilanka.Cdn.Callbacks.{
  Wiring, is_recorded, is_failed, with_result, next, stored_result, resume_integration_wait,
  integrate, process_integration_result, integration_payload, format_cdn_ref,
  integration_wait_template_id,
}
use nsw_srilanka.Cdn.Callbacks.Moves.{resume_notes}
use nsw_srilanka.Cdn.Callbacks.Release.{Wired, Released, integration_found}

-- The row that a result leaves: INTEGRATED with its reference, or FAILED with its errors.
pub data Answered (req : IntegrationResult) (old : DispatchNote) : DispatchNote → Type 0 where
  registered :
      req.integrated ≡ true
      → Answered req old (record old { status = integrated; ref = req.cdn_ref })
  refused :
      req.integrated ≡ false
      → Answered req old (record old { status = failed; errors = req.errors })

with_result-Answered :
    (note : DispatchNote) (req : IntegrationResult) → Answered req note (with_result note req)
unfolding with_result
with_result-Answered note req = elim (Bool-cases req.integrated) [
  | inl y ↦ subst (Answered req note) (rw y refl) (registered y)
  | inr n ↦ subst (Answered req note) (rw n refl) (refused n)
]

with_result-id :
    (note : DispatchNote) (req : IntegrationResult) → note.id ≡ (with_result note req).id
unfolding with_result
with_result-id note req = elim (Bool-cases req.integrated) [ inl y ↦ rw y | inr n ↦ rw n ]

with_result-patched :
    (note : DispatchNote) (req : IntegrationResult)
    → patched (with_result note req) note ≡ with_result note req
unfolding with_result
with_result-patched note req = elim (Bool-cases req.integrated) [ inl y ↦ rw y | inr n ↦ rw n ]

-- A result that says nothing new of a note: one that was registered, or one that was refused and is
-- refused again.
pub data IsOld (req : IntegrationResult) : DispatchNoteStatus → Type 0 where
  was_integrated : IsOld req integrated
  was_acknowledged : IsOld req acknowledged
  was_cancelled : IsOld req cancelled
  refused_again : req.integrated ≡ false → IsOld req failed

module _ {Engine : Type 0} {s : Wiring Engine} (d : Wired s) where
  -- The waiting step is told whether the note was registered, with its number or with the errors.
  pub record Told (req : IntegrationResult) (payload : Fields) : Type 0 where
    pub command : field_at "__command" payload ≡ some (str "submit")
    pub outcome : field_at "integrated" payload ≡ some (bool req.integrated)
    pub number :
        req.integrated ≡ true
        → field_at "cdn_number" payload
          ≡ some (
              str (
                req.cdn_ref.office
                ++ ("/"
                    ++ (req.cdn_ref.year
                        ++ ("/" ++ (req.cdn_ref.serial ++ ("/" ++ decimal req.cdn_ref.number)))))))
    pub error :
        req.integrated ≡ false
        → field_at "error" payload ≡ some (str (s.describe_errors req.errors))

  integration_payload-Told : (req : IntegrationResult) → Told req (integration_payload s req)
  unfolding integration_payload field_at format_cdn_ref
  integration_payload-Told req = record {
    command = refl;
    outcome = refl;
    number = λ y. rw y;
    error = λ n. rw n;
  }

  -- What a processed result has done of the note it found.
  abbrev pub Applied : IntegrationResult → DispatchNote → World Engine → World Engine → Type 0
  Applied req note w v =
      (IsOld req note.status × (v.notes ≡ w.notes))
      ⊎ ((payload : Fields) × (new : DispatchNote) × Told req payload
          × Released d note "customs-cdn--integration-wait" payload w.engine v.engine
          × Answered req note new
          × Replaced id_of note new w.notes v.notes)

  resumed_notes :
      (note : DispatchNote) (req : IntegrationResult) (already : Bool) (w : World Engine)
      → (resume_integration_wait s note req already w).1.notes ≡ w.notes
  unfolding resume_integration_wait
  resumed_notes note req already w =
      resume_notes s note integration_wait_template_id (integration_payload s req) already w

  integrate_known :
      (req : IntegrationResult) (note : DispatchNote) (w : World Engine)
      → is_recorded note.status ≡ true
      → integrate s req (row note) w
        ≡ resume_integration_wait s note (stored_result req note) true w
  unfolding integrate
  integrate_known req note w y =
      ap
        (λ (b : Bool).
          if b
          then resume_integration_wait s note (stored_result req note) true w
          else if not req.integrated && is_failed note.status
          then resume_integration_wait s note req true w
          else next (resume_integration_wait s note req false w) (update (with_result note req)))
        y

  known :
      (req : IntegrationResult) (w : World Engine) (note : DispatchNote)
      → first_row (λ n. n.edge_id == req.edge_id) w.notes ≡ some note
      → fails w.faults ≡ false
      → IsOld req note.status
      → (process_integration_result s req w).1.notes ≡ w.notes
  unfolding process_integration_result get_by_edge_id integrate
  known req w note found n old = elim (Bool-cases (is_recorded note.status)) [
    | inl y ↦
        let e : process_integration_result s req w ≡ integrate s req (row note) (used w) =
          rw (n, found) in
        ap (λ (x : Outcome × World Engine). x.1.notes) (e ∙ integrate_known req note (used w) y)
        ∙ resumed_notes note (stored_result req note) true (used w)
    | inr x ↦
        let f : (not req.integrated && is_failed note.status) ≡ true = again note.status old x in
        rw (n, found, x, f) (resumed_notes note req true (used w))
  ]
    where
      again :
          (st : DispatchNoteStatus)
          → IsOld req st
          → is_recorded st ≡ false
          → (not req.integrated && is_failed st) ≡ true
      again integrated was_integrated x = cc
      again acknowledged was_acknowledged x = cc
      again cancelled was_cancelled x = cc
      again failed (refused_again e) x = rw e
      again submitted o x = elim o [ ]

  -- In a deployment with an engine, a result for a dispatch note found by its edge ID that is processed
  -- without an error either says nothing new, the note being registered, or refused and refused
  -- again, and leaves the notes as they are; or the task that waits for it has been found parked and its
  -- step completed, told whether the note was registered and its number, or the errors, and the one
  -- row has become INTEGRATED with the reference, or FAILED with the errors, and no other has changed.
  pub integration-Released :
      (req : IntegrationResult) (w : World Engine) (note : DispatchNote)
      → Distinct (row_keys id_of w.notes)
      → first_row (λ n. n.edge_id == req.edge_id) w.notes ≡ some note
      → (process_integration_result s req w).0 ≡ done
      → Applied req note w (process_integration_result s req w).1
  integration-Released req w note ids found h = split note.status refl
    where
      calm : fails w.faults ≡ false
      calm = elim (Bool-cases (fails w.faults)) [
        | inl y ↦
            absurd (
              unfold process_integration_result get_by_edge_id integrate in let k = rw y at h in cc)
        | inr n ↦ n
      ]

      old : IsOld req note.status → Applied req note w (process_integration_result s req w).1
      old o = inl (o, known req w note found calm o)

      new :
          is_recorded note.status ≡ false
          → (req.integrated ≡ true) ⊎ (is_failed note.status ≡ false)
          → Applied req note w (process_integration_result s req w).1
      new a b =
          let (r, rows) = integration_found d req w note found a b h in
          let (m, _) = first_row-In (λ n. n.edge_id == req.edge_id) w.notes note found in
          inr (
            integration_payload s req,
            with_result note req,
            integration_payload-Told req,
            r,
            with_result-Answered note req,
            subst (λ (x : List DispatchNote). Replaced id_of note (with_result note req) w.notes x)
                (sym rows)
                (subst
                  (λ (x : DispatchNote).
                    Replaced id_of note x w.notes
                      (set_row id_of patched (with_result note req) w.notes))
                  (with_result-patched note req)
                  (set_row-Replaced id_of patched (λ n a. refl) (with_result note req) note w.notes
                    ids m (with_result-id note req))),
          )

      split :
          (st : DispatchNoteStatus)
          → note.status ≡ st
          → Applied req note w (process_integration_result s req w).1
      split integrated e = old (rw e was_integrated)
      split acknowledged e = old (rw e was_acknowledged)
      split cancelled e = old (rw e was_cancelled)
      split submitted e = new (rw e) (inr (rw e))
      split failed e = elim (Bool-cases req.integrated) [
        | inl y ↦ new (rw e) (inl y)
        | inr n ↦ old (rw e (refused_again n))
      ]
