-- ===== src/Trade/Cha/Recorded.antt =====
-- What a run of Execute (trade/plugin_cha_persist.go) that succeeds has recorded.
use nsw_srilanka.Common.{
  String, ◌==◌, true, Option, some, List, [], ◌∷◌, ◌≡◌, sym, ◌∙◌, ap, subst, inl, inr, false,
}
use nsw_srilanka.Common.Value.{Value, str, Fields, field_at}
use nsw_srilanka.Taskauthz.Gate.{ou, roles_of}
use nsw_srilanka.Trade.{Task}
use nsw_srilanka.Trade.Cha.{
  Company, Desk, Reply, ok, Step, pure, ◌>>=◌, ◌>>◌, get_company, assign_cha, parse_config,
  cha_seed, text_of, consignment_name, case_of, checked_name, with_cha, require_cha, execute, seed,
}
use nsw_srilanka.Trade.Cha.Steps.{IsRead, SameTables, SameTables-refl, SameTables-trans, then_ok}
use nsw_srilanka.Trade.Cha.Persisted.{IsAssigned}
use nsw_srilanka.Trade.Cha.Assigned.{
  IsWritten, IsAssigned-IsWritten, name_given, consignment_name-given, text_given,
}
use nsw_srilanka.Trade.Cha.Runs.{assign_cha_cases}
use nsw_srilanka.Trade.Cha.Execution.{
  require_id, require_id-IsRead, require_cha-IsRead, checked_name-IsRead, case_of-IsRead,
  get_company-IsRead, parse_config-IsRead, cha_seed-IsRead,
}
use nsw_srilanka.Trade.Cha.Facts.{
  get_company_ok, require_cha_ok, case_of_ok, IsAssigned-from, IsAssigned-role, parse_config-same,
}
use nsw_srilanka.Trade.Cha.Handed.{
  IsChosen, seeded, require_id_ok, Lists, parse_config-Lists, IsHanded, with_cha-IsHanded,
}

-- From every desk with the tables of `d`, a run that succeeds ends as `Q` says.
abbrev Leads : {A : Type 0} → Desk → Step A → (A → Desk → Type 0) → Type 0
Leads {A = A} d k Q = (x : Desk) → SameTables x d → (a : A) → (k x).0 ≡ ok a → Q a (k x).1

Leads-after :
    {A B : Type 0} (Q : B → Desk → Type 0) (d : Desk) (m : Step A) (k : A → Step B) (F : A → Type 0)
    → IsRead m
    → ((x : Desk) → SameTables x d → (a : A) → (m x).0 ≡ ok a → F a)
    → ((a : A) → F a → Leads d (k a) Q)
    → Leads d (m >>= k) Q
Leads-after {B = B} Q d m k F read fact rest x s b h =
    let (a, e, g, q) = then_ok m k x b h in
    subst (λ (z : Reply B × Desk). Q b z.1) (sym q)
      (rest a (fact x s a e) (m x).1 (SameTables-trans (m x).1 x d (read x) s) b g)

written_leads :
    (c company handle name : String) (t : Task) (d : Desk)
    → Leads d
        (assign_cha c company handle name >> pure t)
        (λ done e. (done ≡ t) × IsAssigned c company handle name d e)
written_leads c company handle name t d x s done h =
    let (u, a, b, q) = then_ok (assign_cha c company handle name) (λ v. pure t) x done h in
    elim (assign_cha_cases c company handle name x) [
      | inl (p, i) ↦ (
        (let z : ok t ≡ ok done = b in cc),
        IsAssigned-from s
            (subst (λ (z : Reply Task × Desk). IsAssigned c company handle name x z.1) (sym q) i),
      )
      | inr (p, i) ↦ absurd (p a)
    ]

module _ (decode_config : String → Option (List String)) (decode : String → Option (Option Fields))
    (config : String) (inputs : Fields) (t : Task) (d : Desk) where
  -- What a run that succeeds ends with.
  pub record IsRecorded (done : Task) (e : Desk) : Type 0 where
    pub company : Company
    pub names : List String
    pub chosen : Fields
    pub id : String
    pub asked : field_at "cha_company_id" inputs ≡ some (str id)
    pub known : d.companies id ≡ some company
    pub enabled : company.has_cha ≡ true
    pub listed : Lists decode_config config names
    pub assigned :
        IsWritten t.case_id id company.ou_handle
          (name_given (field_at "consignment_name" inputs))
          d
          e
    pub holder :
        (h : String) → roles_of e.session.db t.case_id (ou h ∷ []) "cha" ≡ (company.ou_handle == h)
    pub details : IsChosen decode company names chosen
    pub handed : IsHanded company chosen t done

  IsRecorded-last :
      (names : List String)
      → (parse_config decode_config config d).0 ≡ ok names
      → (text_of (field_at "cha_company_id" inputs) == "") ≡ false
      → (r : Company) → d.companies (text_of (field_at "cha_company_id" inputs)) ≡ some r
      → r.has_cha ≡ true
      → (cha : Value) → (chosen : Fields) × (cha ≡ seed r chosen) × IsChosen decode r names chosen
      → Leads d
          (case_of (some t) >>= λ u.
            checked_name (consignment_name inputs)
            >> (assign_cha u.case_id
                  (text_of (field_at "cha_company_id" inputs))
                  r.ou_handle
                  (consignment_name inputs)
                >> pure (with_cha cha u)))
          IsRecorded
  IsRecorded-last names l given r known enabled cha (chosen, e, details) =
      let name = consignment_name inputs in
      let id = text_of (field_at "cha_company_id" inputs) in
      Leads-after IsRecorded d (case_of (some t)) _ (λ u. t ≡ u) (case_of-IsRead (some t))
        (λ x s u a. case_of_ok t u x a)
        (λ u same.
          Leads-after IsRecorded d (checked_name name) _ (λ w. Unit {0}) (checked_name-IsRead name)
            (λ x s w a. tt)
            (λ w0 w1 x s done h.
              let (is_done, a) =
                written_leads u.case_id id r.ou_handle name (with_cha cha u) d x s done h in
              let b =
                subst
                  (λ (v : Task).
                    IsAssigned v.case_id id r.ou_handle name d
                      ((assign_cha u.case_id id r.ou_handle name >> pure (with_cha cha u)) x).1)
                  (sym same) a in
              record {
                company = r;
                names = names;
                chosen = chosen;
                id = id;
                asked = text_given (field_at "cha_company_id" inputs) given;
                known = known;
                enabled = enabled;
                listed = parse_config-Lists decode_config config names d l;
                assigned =
                    subst
                      (λ n.
                        IsWritten t.case_id id r.ou_handle n d
                          ((assign_cha u.case_id id r.ou_handle name >> pure (with_cha cha u)) x).1)
                      (consignment_name-given inputs) (IsAssigned-IsWritten b);
                holder = IsAssigned-role b;
                details = details;
                handed =
                    subst (IsHanded r chosen t)
                      (sym (
                        is_done
                        ∙ ap (λ v. with_cha v u) e
                        ∙ ap (with_cha (seed r chosen)) (sym same)))
                      (with_cha-IsHanded r chosen t);
              }))

  -- After a run that succeeds, for the company whose ID the inputs give: it exists and is enabled as a
  -- CHA; its OU is the "cha" of the task's case, and no other OU holds that role; the consignment of
  -- that case exists and names the company; the case has the name of the inputs, where they give one;
  -- the other consignments, roles and cases, the flows and the companies are as they were; and the
  -- task's field "cha" holds the company's ID, its name and, of its data, exactly the fields that hold a
  -- text which is not blank and that the config lists, none without a config and no blank name in one,
  -- the task's other fields being as they were.
  pub execute-IsRecorded :
      (done : Task)
      → (execute decode_config decode config inputs (some t) d).0 ≡ ok done
      → IsRecorded done (execute decode_config decode config inputs (some t) d).1
  unfolding execute require_id
  execute-IsRecorded done h =
      let id = text_of (field_at "cha_company_id" inputs) in
      let name = consignment_name inputs in
      let Q : Task → Desk → Type 0 = IsRecorded in
      Leads-after Q d (parse_config decode_config config) _
        (λ names. (parse_config decode_config config d).0 ≡ ok names)
        (parse_config-IsRead decode_config config)
        (λ x s names a. parse_config-same decode_config config d x ∙ a)
        (λ names l.
          Leads-after Q d (require_id id) _ (λ u. (id == "") ≡ false) (require_id-IsRead id)
            (λ x s u a. require_id_ok id x a)
            (λ u0 given.
              Leads-after Q d (get_company id) _ (λ r. d.companies id ≡ some r)
                (get_company-IsRead id)
                (λ x s r a. sym (ap (λ f. f id) s.companies) ∙ get_company_ok id x r a)
                (λ r known.
                  Leads-after Q d (require_cha r) _ (λ u. r.has_cha ≡ true) (require_cha-IsRead r)
                    (λ x s u a. require_cha_ok r x a)
                    (λ u enabled.
                      Leads-after Q d (cha_seed decode r names) _
                        (λ cha.
                          (chosen : Fields) × (cha ≡ seed r chosen)
                          × IsChosen decode r names chosen)
                        (cha_seed-IsRead decode r names)
                        (λ x s cha a. seeded decode r names x cha a)
                        (λ cha c. IsRecorded-last names l given r known enabled cha c)))))
        d (SameTables-refl d) done h
