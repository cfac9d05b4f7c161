-- ===== src/Cdn/Callbacks/Moves/Histories.antt =====
-- Every history of dispatches and callbacks on the table of dispatch notes.
use nsw_srilanka.Common.{
  String, ◌==◌, true, List, [], ◌∷◌, ◌≡◌, refl, sym, ap, ◌∙◌, subst, inl, inr, In, any, leb,
  Distinct, Bool-cases, arith,
}
use nsw_srilanka.Cdn.{
  Reference, DispatchNoteStatus, cancelled, DispatchNote, Failure, Outcome, failure,
  IntegrationResult, World, fails, record_submitted,
}
use nsw_srilanka.Cdn.Callbacks.{
  Wiring, Amendment, is_recorded, process_integration_result, process_acknowledgment,
  process_cancellation, process_amendment,
}
use nsw_srilanka.Cdn.Callbacks.Moves.{rank, Moves, Effect}
use nsw_srilanka.Cdn.Callbacks.Moves.Callback.{
  process_integration-Effect, process_acknowledgment-Effect, process_cancellation-Effect,
  process_amendment-Effect,
}
use nsw_srilanka.Common.Tables.{
  row_keys, same_row, set_row-In, set_row-keys, insert_row-In, insert_row-Distinct, any-row_keys,
}
use nsw_srilanka.Cdn.{id_of, patched}

-- What happens to a deployment: a dispatch, with its fresh id, or a callback.
pub data Event : Type 0 where
  dispatched : String → String → String → String → Event
  result : IntegrationResult → Event
  acknowledgment : Reference → Event
  cancellation : Reference → Event
  amendment : Amendment → Event

abbrev pub handle :
    {Engine : Type 0} → Wiring Engine → Event → World Engine → Outcome × World Engine
handle s (dispatched id edge c wf) w = record_submitted id edge c wf w
handle s (result req) w = process_integration_result s req w
handle s (acknowledgment ref) w = process_acknowledgment s ref w
handle s (cancellation ref) w = process_cancellation s ref w
handle s (amendment req) w = process_amendment s req w

abbrev pub handle_all : {Engine : Type 0} → Wiring Engine → List Event → World Engine → World Engine
handle_all s [] w = w
handle_all s (e ∷ es) w = handle_all s es (handle s e w).1

-- `new` is `old` at a later time: the same note, no less far, with the reference it was registered
-- under, and unchanged once it was cancelled.
pub record IsLater (old new : DispatchNote) : Type 0 where
  pub same_id : new.id ≡ old.id
  pub same_edge : new.edge_id ≡ old.edge_id
  pub same_case : new.case_id ≡ old.case_id
  pub same_workflow : new.workflow_id ≡ old.workflow_id
  pub no_way_back : leb (rank old.status) (rank new.status) ≡ true
  pub reference : is_recorded old.status ≡ true → new.ref ≡ old.ref
  pub ended : old.status ≡ cancelled → new.status ≡ cancelled

IsLater-refl : (n : DispatchNote) → IsLater n n
IsLater-refl n = record {
  same_id = refl;
  same_edge = refl;
  same_case = refl;
  same_workflow = refl;
  no_way_back = ground arith;
  reference = λ h. refl;
  ended = λ h. h;
}

recorded_later :
    (a b : DispatchNoteStatus)
    → leb (rank a) (rank b) ≡ true
    → is_recorded a ≡ true
    → is_recorded b ≡ true
recorded_later a b h r = ground arith

IsLater-trans : (a b c : DispatchNote) → IsLater a b → IsLater b c → IsLater a c
IsLater-trans a b c p q = record {
  same_id = q.same_id ∙ p.same_id;
  same_edge = q.same_edge ∙ p.same_edge;
  same_case = q.same_case ∙ p.same_case;
  same_workflow = q.same_workflow ∙ p.same_workflow;
  no_way_back = let x = p.no_way_back in let y = q.no_way_back in ground arith;
  reference = λ h. q.reference (recorded_later a.status b.status p.no_way_back h) ∙ p.reference h;
  ended = λ h. q.ended (p.ended h);
}

Moves-IsLater : (old new : DispatchNote) → Moves old new → IsLater old new
Moves-IsLater old new m = record {
  same_id = m.same_id;
  same_edge = m.same_edge;
  same_case = m.same_case;
  same_workflow = m.same_workflow;
  no_way_back = let f = m.further in ground arith;
  reference = m.reference;
  ended = λ h. let f = m.further in ground arith;
}

-- After a step the row_keys id_of are distinct still, and every row is there, later.
abbrev Keeps : List DispatchNote → List DispatchNote → Type 0
Keeps old new =
    Distinct (row_keys id_of new)
    × ((n : DispatchNote) → In n old → (m : DispatchNote) × In m new × IsLater n m)

Effect-Keeps :
    {Engine : Type 0} (w : World Engine) (r : Outcome × World Engine)
    → Distinct (row_keys id_of w.notes)
    → Effect w r
    → Keeps w.notes r.1.notes
Effect-Keeps w r d (inl e) = rw e (d, λ n m. (n, m, IsLater-refl n))
Effect-Keeps w r d (inr (q, (old, new, mo, mv, e))) = rw e (
  rw (set_row-keys id_of patched (λ x a. refl) new w.notes) d,
  λ n m. elim (set_row-In id_of patched new n w.notes m) [
    | inl k ↦ (n, k, IsLater-refl n)
    | inr (same, k) ↦
        let row_eq : old ≡ n = same_row id_of w.notes d old n mo m (sym mv.same_id ∙ sym same) in
        (
          patched new n,
          k,
          subst (λ x. IsLater x (patched new n)) row_eq
              (let l = Moves-IsLater old new mv in
                record {
                  same_id = ap (λ (x : DispatchNote). x.id) (sym row_eq);
                  same_edge = ap (λ (x : DispatchNote). x.edge_id) (sym row_eq);
                  same_case = ap (λ (x : DispatchNote). x.case_id) (sym row_eq);
                  same_workflow = ap (λ (x : DispatchNote). x.workflow_id) (sym row_eq);
                  no_way_back = l.no_way_back;
                  reference = l.reference;
                  ended = l.ended;
                }),
        )
  ],
)

submitted-Keeps :
    {Engine : Type 0} (id edge c wf : String) (w : World Engine)
    → Distinct (row_keys id_of w.notes)
    → Keeps w.notes (record_submitted id edge c wf w).1.notes
unfolding record_submitted
submitted-Keeps id edge c wf w d =
    let same : Keeps w.notes w.notes = (d, λ n m. (n, m, IsLater-refl n)) in
    elim (Bool-cases (fails w.faults)) [
      | inl y ↦ rw y same
      | inr a ↦ elim (Bool-cases (any (λ n. n.edge_id == edge) w.notes)) [
        | inl y ↦ rw (a, y) same
        | inr b ↦ elim (Bool-cases (any (λ n. n.id == id) w.notes)) [
          | inl y ↦ rw (a, b, y) same
          | inr x ↦
              rw (a, b, x)
                (
                  insert_row-Distinct id_of _ w.notes d (any-row_keys id_of id w.notes x),
                  λ n m. (n, insert_row-In id_of _ n w.notes m, IsLater-refl n),
                )
        ]
      ]
    ]

module _ {Engine : Type 0} (s : Wiring Engine) where
  handle-Keeps :
      (e : Event) (w : World Engine)
      → Distinct (row_keys id_of w.notes)
      → Keeps w.notes (handle s e w).1.notes
  handle-Keeps (dispatched id edge c wf) w d = submitted-Keeps id edge c wf w d
  handle-Keeps (result req) w d =
      Effect-Keeps w (handle s (result req) w) d (process_integration-Effect s req w)
  handle-Keeps (acknowledgment ref) w d =
      Effect-Keeps w (handle s (acknowledgment ref) w) d (process_acknowledgment-Effect s ref w)
  handle-Keeps (cancellation ref) w d =
      Effect-Keeps w (handle s (cancellation ref) w) d (process_cancellation-Effect s ref w)
  handle-Keeps (amendment req) w d =
      Effect-Keeps w (handle s (amendment req) w) d (process_amendment-Effect s req w)

  -- Over any dispatches and callbacks, one after another, with any database call failing and any
  -- engine, a note of a table whose row_keys id_of are distinct keeps its identity and never goes back: it
  -- keeps the reference it was registered under, and a cancelled note stays cancelled.
  pub handle_all-IsLater :
      (es : List Event) (w : World Engine) (n : DispatchNote)
      → Distinct (row_keys id_of w.notes)
      → In n w.notes
      → (m : DispatchNote) × In m (handle_all s es w).notes × IsLater n m
  handle_all-IsLater [] w n d i = (n, i, IsLater-refl n)
  handle_all-IsLater (e ∷ es) w n d i =
      let (d', each) = handle-Keeps e w d in
      let (m, j, l) = each n i in
      let (k, x, l') = handle_all-IsLater es (handle s e w).1 m d' j in
      (k, x, IsLater-trans n m k l l')

Effect-failed :
    {Engine : Type 0} (w : World Engine) (r : Outcome × World Engine) (x : Failure)
    → Effect w r
    → r.0 ≡ failure x
    → r.1.notes ≡ w.notes
Effect-failed w r x (inl e) h = e
Effect-failed w r x (inr (q, p)) h = absurd (cc)

-- A callback that reports an error, which SLC Edge or the retries then deliver again, has left
-- the table of notes as it was.
pub callback_atomic :
    {Engine : Type 0} (s : Wiring Engine) (e : Event) (w : World Engine) (x : Failure)
    → (handle s e w).0 ≡ failure x
    → (handle s e w).1.notes ≡ w.notes
unfolding record_submitted
callback_atomic s (dispatched id edge c wf) w x h = ground arith
callback_atomic s (result req) w x h =
    Effect-failed w (handle s (result req) w) x (process_integration-Effect s req w) h
callback_atomic s (acknowledgment ref) w x h =
    Effect-failed w (handle s (acknowledgment ref) w) x (process_acknowledgment-Effect s ref w) h
callback_atomic s (cancellation ref) w x h =
    Effect-failed w (handle s (cancellation ref) w) x (process_cancellation-Effect s ref w) h
callback_atomic s (amendment req) w x h =
    Effect-failed w (handle s (amendment req) w) x (process_amendment-Effect s req w) h
