-- ===== src/Cusdec/Histories.antt =====
-- Every history of dispatches and callbacks on the table of declarations: cusdec/service.go and
-- repository.go.
pub mod Effects
pub mod Rules
use nsw_srilanka.Common.{
  ℕ, String, ◌==◌, Bool, true, false, List, [], ◌∷◌, ◌≡◌, refl, sym, ap, ◌∙◌, subst, inl, inr, In,
  any, leb, Distinct, Bool-cases, arith,
}
use nsw_srilanka.Common.Tables.{
  set_row, row_keys, same_row, set_row-In, In-set_row, set_row-keys, insert_row-In, In-insert_row,
  insert_row-Distinct, any-row_keys,
}
use nsw_srilanka.Document.{is_valid}
use nsw_srilanka.Cdn.{fails}
use nsw_srilanka.Cusdec.{
  CusdecStatus, submitted, integrated, failed, paid, warranted, released, event_status_order,
  Declaration, patched, id_of, fresh_row, Failure, Outcome, done, failure, World, record_submitted,
}
use nsw_srilanka.Cusdec.Callbacks.{Wiring}
use nsw_srilanka.Cusdec.Notices.{Callback, serve}
use nsw_srilanka.Cusdec.Histories.Rules.{is_unregistered, IsSound, goes, Moves, Effect}
use nsw_srilanka.Cusdec.Histories.Effects.{serve-Effect}

-- What happens to a deployment: a dispatch, with its fresh id and time, or a callback.
pub data Event : Type 0 where
  dispatched : String → String → String → String → ℕ → Event
  called_back : Callback → Event

abbrev pub handle :
    {Engine : Type 0} → Wiring Engine → Event → World Engine → Outcome × World Engine
handle s (dispatched id edge c wf now) w = record_submitted id edge c wf now w
handle s (called_back c) w = serve s c w

abbrev pub handle_all : {Engine : Type 0} → Wiring Engine → List Event → World Engine → World Engine
handle_all s [] w = w
handle_all s (e ∷ es) w = handle_all s es (handle s e w).1

abbrev pub is_failed : CusdecStatus → Bool
is_failed failed = true
is_failed _ = false

-- From any status to itself and those that come after it; a failed declaration stays failed.
abbrev pub reaches : CusdecStatus → CusdecStatus → Bool
reaches submitted t = true
reaches failed t = is_failed t
reaches s t = leb (event_status_order s) (event_status_order t)

-- `new` is `old` at a later time.
pub record IsLater (old new : Declaration) : Type 0 where
  pub same_id : new.id ≡ old.id
  pub same_edge : new.edge_id ≡ old.edge_id
  pub same_case : new.case_id ≡ old.case_id
  pub same_workflow : new.workflow_id ≡ old.workflow_id
  pub same_time : new.created_at ≡ old.created_at
  pub no_way_back : reaches old.status new.status ≡ true
  pub reference : is_unregistered old.status ≡ false → new.ref ≡ old.ref

reaches_self : (s : CusdecStatus) → reaches s s ≡ true
reaches_self s = ground arith

IsLater-refl : (d : Declaration) → IsLater d d
IsLater-refl d = record {
  same_id = refl;
  same_edge = refl;
  same_case = refl;
  same_workflow = refl;
  same_time = refl;
  no_way_back = reaches_self d.status;
  reference = λ h. refl;
}

reaches_trans :
    (a b c : CusdecStatus) → reaches a b ≡ true → reaches b c ≡ true → reaches a c ≡ true
reaches_trans a b c p q = ground arith

stays_registered :
    (a b : CusdecStatus)
    → reaches a b ≡ true
    → is_unregistered a ≡ false
    → is_unregistered b ≡ false
stays_registered a b p q = ground arith

goes-reaches : (a b : CusdecStatus) → goes a b ≡ true → reaches a b ≡ true
goes-reaches a b h = ground arith

IsLater-trans : (a b c : Declaration) → IsLater a b → IsLater b c → IsLater a c
IsLater-trans a b c p q = record {
  same_id = q.same_id ∙ p.same_id;
  same_edge = q.same_edge ∙ p.same_edge;
  same_case = q.same_case ∙ p.same_case;
  same_workflow = q.same_workflow ∙ p.same_workflow;
  same_time = q.same_time ∙ p.same_time;
  no_way_back = reaches_trans a.status b.status c.status p.no_way_back q.no_way_back;
  reference = λ h. q.reference (stays_registered a.status b.status p.no_way_back h) ∙ p.reference h;
}

Moves-IsLater : (old new : Declaration) → Moves old new → IsLater old (patched new old)
Moves-IsLater old new m = record {
  same_id = refl;
  same_edge = refl;
  same_case = refl;
  same_workflow = refl;
  same_time = refl;
  no_way_back = goes-reaches old.status new.status m.step;
  reference = m.reference;
}

-- The table's invariant: the ids are distinct, and a row has a reference, a full one, exactly where
-- its declaration was registered.
pub record IsGood (ds : List Declaration) : Type 0 where
  pub ids : Distinct (row_keys id_of ds)
  pub sound : (d : Declaration) → In d ds → IsSound d

abbrev Keeps : List Declaration → List Declaration → Type 0
Keeps old new =
    IsGood new × ((d : Declaration) → In d old → (e : Declaration) × In e new × IsLater d e)

same-Keeps : (ds : List Declaration) → IsGood ds → Keeps ds ds
same-Keeps ds g = (g, λ d m. (d, m, IsLater-refl d))

patched-IsSound : (new d : Declaration) → IsSound new → IsSound (patched new d)
patched-IsSound new d h = record { unregistered = h.unregistered; registered = h.registered }

moved-Keeps :
    (ds : List Declaration) (old new : Declaration)
    → IsGood ds
    → In old ds
    → Moves old new
    → Keeps ds (set_row id_of patched new ds)
moved-Keeps ds old new g mo mv = (
  record {
    ids = rw (set_row-keys id_of patched (λ n d. refl) new ds) g.ids;
    sound = λ d m. elim (In-set_row id_of patched new d ds m) [
      | inl k ↦ g.sound d k
      | inr (a, k, same, e) ↦ subst IsSound (sym e) (patched-IsSound new a mv.sound)
    ];
  },
  λ d m. elim (set_row-In id_of patched new d ds m) [
    | inl k ↦ (d, k, IsLater-refl d)
    | inr (same, k) ↦
        let row_eq : old ≡ d = same_row id_of ds g.ids old d mo m (sym mv.same_id ∙ sym same) in
        (patched new d, k, subst (λ x. IsLater x (patched new x)) row_eq (Moves-IsLater old new mv))
  ],
)

Effect-Keeps :
    {Engine : Type 0} (w : World Engine) (r : Outcome × World Engine)
    → IsGood w.declarations
    → Effect w r
    → Keeps w.declarations r.1.declarations
Effect-Keeps w r g (inl e) = rw e (same-Keeps w.declarations g)
Effect-Keeps w r g (inr (q, (old, new, mo, mv, e))) =
    rw e (moved-Keeps w.declarations old new g mo mv)

fresh-IsSound : (id edge c wf : String) (now : ℕ) → IsSound (fresh_row id edge c wf now)
fresh-IsSound id edge c wf now = record { unregistered = λ h. refl; registered = λ h. cc }

submitted-Keeps :
    {Engine : Type 0} (id edge c wf : String) (now : ℕ) (w : World Engine)
    → IsGood w.declarations
    → Keeps w.declarations (record_submitted id edge c wf now w).1.declarations
unfolding record_submitted
submitted-Keeps id edge c wf now w g =
    let same = same-Keeps w.declarations g in
    elim (Bool-cases (fails w.faults)) [
      | inl y ↦ rw y same
      | inr a ↦ elim (Bool-cases (any (λ d. d.edge_id == edge) w.declarations)) [
        | inl y ↦ rw (a, y) same
        | inr b ↦ elim (Bool-cases (any (λ d. d.id == id) w.declarations)) [
          | inl y ↦ rw (a, b, y) same
          | inr x ↦
              rw (a, b, x)
                (
                  record {
                    ids =
                        insert_row-Distinct id_of (fresh_row id edge c wf now) w.declarations g.ids
                          (any-row_keys id_of id w.declarations x);
                    sound = λ d m. elim (In-insert_row id_of _ d w.declarations m) [
                      | inl e ↦ subst IsSound (sym e) (fresh-IsSound id edge c wf now)
                      | inr k ↦ g.sound d k
                    ];
                  },
                  λ d m. (d, insert_row-In id_of _ d w.declarations m, IsLater-refl d),
                )
        ]
      ]
    ]

module _ {Engine : Type 0} (s : Wiring Engine) where
  handle-Keeps :
      (e : Event) (w : World Engine)
      → IsGood w.declarations
      → Keeps w.declarations (handle s e w).1.declarations
  handle-Keeps (dispatched id edge c wf now) w g = submitted-Keeps id edge c wf now w g
  handle-Keeps (called_back c) w g = Effect-Keeps w (serve s c w) g (serve-Effect s c w g.sound)

  -- Over any dispatches and callbacks, one after another, with any database call failing and any
  -- engine, the table keeps distinct ids, a declaration has a full reference when it is registered
  -- and none before, and every declaration keeps its identity and its reference and never goes
  -- back: one that has failed stays failed.
  pub handle_all-IsGood :
      (es : List Event) (w : World Engine)
      → IsGood w.declarations
      → IsGood (handle_all s es w).declarations
        × ((d : Declaration)
            → In d w.declarations
            → (e : Declaration) × In e (handle_all s es w).declarations × IsLater d e)
  handle_all-IsGood [] w g = same-Keeps w.declarations g
  handle_all-IsGood (e ∷ es) w g =
      let (g', each) = handle-Keeps e w g in
      let (good, later) = handle_all-IsGood es (handle s e w).1 g' in
      (
        good,
        λ d m.
            let (a, j, l) = each d m in
            let (b, k, l') = later a j in (b, k, IsLater-trans d a b l l'),
      )
