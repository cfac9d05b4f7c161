-- ===== src/Trade/Cha/Facts.antt =====
-- What the steps of Execute (trade/plugin_cha_persist.go) show where they succeed.
use text.Mathlib.TextPositions.{eq_refl}
use nsw_srilanka.Common.{
  String, ◌==◌, Bool, true, false, ◌||◌, Option, none, some, List, [], ◌∷◌, ◌≡◌, refl, sym, ◌∙◌, ap,
  is_blank, any, Bool-cases, inl, inr,
}
use nsw_srilanka.Caseflow.Rows.{Db, CaseRow}
use nsw_srilanka.Caseflow.Repository.{update_case}
use nsw_srilanka.Taskauthz.Gate.{ou, roles_of, set_party}
use nsw_srilanka.Trade.{Task}
use nsw_srilanka.Trade.Cha
use nsw_srilanka.Trade.Cha.{
  Company, Desk, Reply, ok, permanent, retryable, Step, pure, ◌>>=◌, ◌>>◌, call, found_company,
  get_company, assign_cha, parse_config, cha_seed, text_of, consignment_name, case_of, checked_name,
  checked_fields, with_cha, require_cha, execute, company_query, seed, name_case,
}
use nsw_srilanka.Trade.Cha.Steps.{SameTables, call-SameTables, then_ok}
use nsw_srilanka.Trade.Cha.Persisted.{IsAssigned, named, cha_party, chosen_by}

pub found_ok :
    (o : Option Company) (d : Desk) (r : Company) → (found_company o d).0 ≡ ok r → o ≡ some r
found_ok none d r h = cc
found_ok (some q) d r h = cc

pub get_company_ok :
    (id : String) (d : Desk) (r : Company) → (get_company id d).0 ≡ ok r → d.companies id ≡ some r
unfolding get_company
get_company_ok id d r h = elim (Bool-cases (id == "")) [
  | inl e ↦ let x : (get_company id d).0 ≡ permanent Cha.company_id_empty = rw e refl in cc
  | inr e ↦
      let x : (get_company id d).0
          ≡ ((call company_query >> (λ d'. found_company (d'.companies id) d')) d).0 =
        rw e refl in
      let (u, a, b, q) =
        then_ok (call company_query) (λ u d'. found_company (d'.companies id) d') d r (sym x ∙ h) in
      sym (ap (λ f. f id) (call-SameTables company_query d).companies) ∙ found_ok _ _ r b
]

pub require_cha_ok : (r : Company) (d : Desk) → (require_cha r d).0 ≡ ok tt → r.has_cha ≡ true
require_cha_ok r d h = elim (Bool-cases r.has_cha) [
  | inl e ↦ e
  | inr e ↦ let x : (require_cha r d).0 ≡ permanent Cha.not_enabled = rw e refl in cc
]

pub case_of_ok : (t u : Task) (d : Desk) → (case_of (some t) d).0 ≡ ok u → t ≡ u
case_of_ok t u d h = elim (Bool-cases (t.case_id == "")) [
  | inl e ↦ let x : (case_of (some t) d).0 ≡ permanent Cha.no_case = rw e refl in cc
  | inr e ↦ let x : (case_of (some t) d).0 ≡ ok t = rw e refl in cc
]

pub IsAssigned-from :
    {c company handle name : String} {d d' e : Desk}
    → SameTables d' d
    → IsAssigned c company handle name d' e
    → IsAssigned c company handle name d e
IsAssigned-from {c = c} {company = company} {handle = handle} {name = name} s a = record {
  known = (a.known.0, sym (ap (λ f. f c) s.consignments) ∙ a.known.1);
  case_given = a.case_given;
  companies = a.companies ∙ s.companies;
  consignments = a.consignments ∙ ap (chosen_by c company) s.consignments;
  db = a.db ∙ ap (λ db. named c name (set_party c "cha" (cha_party handle) db).1) s.db;
}

pub update_case-parties :
    (c : String) (g : CaseRow → CaseRow) (db : Db) → (update_case c g db).parties ≡ db.parties
unfolding update_case
update_case-parties c g db = go (db.cases c) refl
  where
    go : (o : Option CaseRow) → db.cases c ≡ o → (update_case c g db).parties ≡ db.parties
    go none e = rw (update_case, e) refl
    go (some r) e = rw (update_case, e) refl

-- The case is named or not: its parties are the same.
pub named-parties : (c name : String) (db : Db) → (named c name db).parties ≡ db.parties
unfolding named
named-parties c name db = elim (Bool-cases (name == "")) [
  | inl e ↦ rw e refl
  | inr e ↦ rw e (update_case-parties c (λ r. record r { name = some name }) db)
]

-- After the assignment the role is held by the company's OU, and by no other.
pub IsAssigned-role :
    {c company handle name : String} {d e : Desk}
    → IsAssigned c company handle name d e
    → (h : String) → roles_of e.session.db c (ou h ∷ []) "cha" ≡ (handle == h)
unfolding roles_of set_party
IsAssigned-role {c = c} {handle = handle} {name = name} {d = d} {e = e} a h =
    let p : e.session.db.parties ≡ (set_party c "cha" (cha_party handle) d.session.db).1.parties =
      ap (λ (db : Db). db.parties) a.db
      ∙ named-parties c name (set_party c "cha" (cha_party handle) d.session.db).1 in
    rw (a.case_given, p, eq_refl c) (last (handle == h))
  where
    last : (b : Bool) → (b || false) ≡ b
    last true = refl
    last false = refl

pub parse_config-same :
    (decode : String → Option (List String)) (config : String) (x y : Desk)
    → (parse_config decode config x).0 ≡ (parse_config decode config y).0
unfolding parse_config checked_fields
parse_config-same decode config x y = elim (Bool-cases (config == "")) [
  | inl e ↦ rw e refl
  | inr e ↦ rw e (go (decode config))
]
  where
    go : (o : Option (List String)) → (checked_fields o x).0 ≡ (checked_fields o y).0
    go none = refl
    go (some names) = elim (Bool-cases (any is_blank names)) [
      | inl e ↦ rw e refl
      | inr e ↦ rw e refl
    ]
