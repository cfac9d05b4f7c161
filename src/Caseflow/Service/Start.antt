-- ===== src/Caseflow/Service/Start.antt =====
-- The laws of StartFlow (internal/caseflow/service.go), whatever statements fail and whatever other
-- requests commit meanwhile.
use nsw_srilanka.Common.{
  ℕ, String, ◌==◌, eq_iff, Bool, false, Option, none, some, ◌≡◌, ◌≢◌, refl, ◌∙◌, ◌⊎◌, inl, inr,
  arith,
}
use nsw_srilanka.Common.Value.{Fields}
use nsw_srilanka.Caseflow.Rows.{starting, Flow, Db, Err, database, conflict, flow_not_found}
use nsw_srilanka.Caseflow.Exec.{ok, err}
use nsw_srilanka.Caseflow.Repository.{find_flow, get}
use nsw_srilanka.Caseflow.Repository.Starting.{get_lem}
use nsw_srilanka.Caseflow.Service.{
  StartRequest, Deps, World, interfere, in_db, new_flow_row, row_of, definition, seeded, start,
  call_engine, submit, resume, start_new, after_read, known_or_new, start_flow,
}

-- The tables as the request's next repository call meets them.
abbrev pub tables : {Engine : Type 0} → World Engine → Db
tables w = (interfere w.others w.session).db

module _ {Engine : Type 0} where
  -- The first read finds the row, or the database fails; nothing else happens.
  pub read_row :
      (id : String) (w : World Engine) (f : Flow)
      → find_flow id (tables w).flows ≡ some f
      → let r = in_db (get id) w in
        (r.1.engine ≡ w.engine)
        × (r.1.session.db ≡ tables w)
        × ((r.0 ≡ err database) ⊎ (r.0 ≡ ok f))
  unfolding in_db
  read_row id w f h =
      let (same, answer) = get_lem id (interfere w.others w.session) in
      (refl, same, elim answer [ inl e ↦ inl e | inr e ↦ inr (e ∙ rw h) ])

  pub read_none :
      (id : String) (w : World Engine)
      → find_flow id (tables w).flows ≡ none
      → let r = in_db (get id) w in
        (r.1.engine ≡ w.engine)
        × (r.1.session.db ≡ tables w)
        × ((r.0 ≡ err database) ⊎ (r.0 ≡ err flow_not_found))
  unfolding in_db
  read_none id w h =
      let (same, answer) = get_lem id (interfere w.others w.session) in
      (refl, same, elim answer [ inl e ↦ inl e | inr e ↦ inr (e ∙ rw h) ])

-- A request that is valid and names its workflow.
pub record Names (req : StartRequest) (fresh : String) (row : Flow) : Type 0 where
  pub valid : new_flow_row req fresh ≡ ok row
  pub named : (req.workflow_id == "") ≡ false

row_id :
    (req : StartRequest) (fresh : String) (row : Flow)
    → Names req fresh row
    → row.workflow_id ≡ req.workflow_id
unfolding new_flow_row row_of
row_id req fresh row n = ground (arith, n.valid, n.named)

module _ {Def Engine : Type 0} (deps : Deps Def Engine) where
  pub start_named :
      (req : StartRequest) (fresh : String) (row : Flow) (w : World Engine)
      → Names req fresh row
      → start_flow deps req fresh w
        ≡ after_read deps req row
            (in_db (get req.workflow_id) w).0
            (in_db (get req.workflow_id) w).1
  unfolding start_flow known_or_new
  start_named req fresh row w n = rw (n.valid, n.named, row_id req fresh row n)

  pub resume_settled :
      (req : StartRequest) (f : Flow) (def : Option Def) (w : World Engine)
      → f.case_id ≡ req.case_id
      → f.template_id ≡ req.template_id
      → f.status ≢ starting
      → resume deps req f def w ≡ (ok f, w)
  unfolding resume
  resume_settled req f def w c t going =
      ground (arith, eq_iff f.case_id req.case_id, eq_iff f.template_id req.template_id)

  pub resume_conflict :
      (req : StartRequest) (f : Flow) (def : Option Def) (w : World Engine)
      → (f.case_id ≢ req.case_id) ⊎ (f.template_id ≢ req.template_id)
      → resume deps req f def w ≡ (err conflict, w)
  unfolding resume
  resume_conflict req f def w differ =
      ground (arith, eq_iff f.case_id req.case_id, eq_iff f.template_id req.template_id)

  -- A start, by a valid request that names its workflow, of a flow recorded for the same case
  -- and template that has started already or completed, answers with the recorded flow, or fails
  -- on the database. Either way the engine is not asked and no table is written.
  pub start_flow_again :
      (req : StartRequest) (fresh : String) (row : Flow) (w : World Engine) (f : Flow)
      → Names req fresh row
      → find_flow req.workflow_id (tables w).flows ≡ some f
      → f.case_id ≡ req.case_id
      → f.template_id ≡ req.template_id
      → f.status ≢ starting
      → let r = start_flow deps req fresh w in
        (r.1.engine ≡ w.engine)
        × (r.1.session.db ≡ tables w)
        × ((r.0 ≡ err database) ⊎ (r.0 ≡ ok f))
  unfolding after_read
  start_flow_again req fresh row w f n found c t going = rw (start_named req fresh row w n) (
      let (e, d, answer) = read_row req.workflow_id w f found in
      elim answer [
        | inl q ↦ rw q (e, d, inl refl)
        | inr q ↦ rw q (rw (resume_settled req f none _ c t going) (e, d, inr refl))
      ])

  -- A start, by a valid request, that reuses the workflow ID of another case's or another
  -- template's flow is a conflict, or fails on the database. Either way the engine is not asked
  -- and no table is written.
  pub start_flow_conflict :
      (req : StartRequest) (fresh : String) (row : Flow) (w : World Engine) (f : Flow)
      → Names req fresh row
      → find_flow req.workflow_id (tables w).flows ≡ some f
      → (f.case_id ≢ req.case_id) ⊎ (f.template_id ≢ req.template_id)
      → let r = start_flow deps req fresh w in
        (r.1.engine ≡ w.engine)
        × (r.1.session.db ≡ tables w)
        × ((r.0 ≡ err database) ⊎ (r.0 ≡ err conflict))
  unfolding after_read
  start_flow_conflict req fresh row w f n found differ = rw (start_named req fresh row w n) (
      let (e, d, answer) = read_row req.workflow_id w f found in
      elim answer [
        | inl q ↦ rw q (e, d, inl refl)
        | inr q ↦ rw q (rw (resume_conflict req f none _ differ) (e, d, inr refl))
      ])

  -- A start, by a valid request that names its workflow, of a flow that is not recorded, for a
  -- template that the current version cannot give, fails with that error or on the database. The
  -- engine is not asked and no table is written.
  pub start_flow_unknown :
      (req : StartRequest) (fresh : String) (row : Flow) (w : World Engine) (e : Err)
      → Names req fresh row
      → find_flow req.workflow_id (tables w).flows ≡ none
      → definition deps deps.current req.template_id ≡ err e
      → let r = start_flow deps req fresh w in
        (r.1.engine ≡ w.engine)
        × (r.1.session.db ≡ tables w)
        × ((r.0 ≡ err database) ⊎ (r.0 ≡ err e))
  unfolding after_read start_new
  start_flow_unknown req fresh row w e n missing unknown = rw (start_named req fresh row w n) (
      let (en, d, answer) = read_none req.workflow_id w missing in
      elim answer [
        | inl q ↦ rw q (en, d, inl refl)
        | inr q ↦ rw q (unfold definition in rw (unknown) (en, d, inr refl))
      ])

abbrev pub redeployed : {Def Engine : Type 0} → Deps Def Engine → ℕ → Deps Def Engine
redeployed deps version = record deps { current = version }

module _ {Def Engine : Type 0} where
  start_redeployed :
      (deps : Deps Def Engine) (version : ℕ)
      (run : Option (String → Def → Fields → Engine → Bool × Engine)) (f : Flow) (d : Def)
      (w : World Engine)
      → call_engine deps run f d w ≡ call_engine (redeployed deps version) run f d w
  unfolding call_engine submit
  start_redeployed deps version none f d w = refl
  start_redeployed deps version (some run) f d w = refl

  resume-redeployed :
      (deps : Deps Def Engine) (version : ℕ) (req req' : StartRequest) (f : Flow) (w : World Engine)
      → req.case_id ≡ req'.case_id
      → req.template_id ≡ req'.template_id
      → resume deps req f none w ≡ resume (redeployed deps version) req' f none w
  unfolding resume definition start seeded
  resume-redeployed deps version req req' f w c t =
      rw (c, t) (ground (arith, start_redeployed deps version deps.start_workflow f))

  -- What a retry of a recorded flow does depends on the recorded flow alone: valid requests with
  -- its workflow ID and one case and template start it in the same way, whatever their
  -- variables, owners and case attributes and whichever version is current.
  pub start_flow_retry :
      (deps : Deps Def Engine) (version : ℕ) (req req' : StartRequest) (fresh fresh' : String)
      (row row' : Flow) (w : World Engine) (f : Flow)
      → Names req fresh row
      → Names req' fresh' row'
      → req.case_id ≡ req'.case_id
      → req.template_id ≡ req'.template_id
      → req.workflow_id ≡ req'.workflow_id
      → find_flow req.workflow_id (tables w).flows ≡ some f
      → start_flow deps req fresh w ≡ start_flow (redeployed deps version) req' fresh' w
  unfolding after_read
  start_flow_retry deps version req req' fresh fresh' row row' w f n n' c t id found =
      rw
        (
          start_named deps req fresh row w n,
          start_named (redeployed deps version) req' fresh' row' w n',
          ← id,
        )
        (let (e, d, answer) = read_row req.workflow_id w f found in
          elim answer [
            | inl q ↦ rw q
            | inr q ↦ rw q (resume-redeployed deps version req req' f _ c t)
          ])
