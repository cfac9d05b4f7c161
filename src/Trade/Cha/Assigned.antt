-- ===== src/Trade/Cha/Assigned.antt =====
-- What an assignment of trade/plugin_cha_persist.go has written, row by row.
use text.Mathlib.TextPositions.{eq_refl}
use nsw_srilanka.Common.{
  String, ◌==◌, eq_iff, Bool, true, false, ◌&&◌, Option, none, some, ◌≡◌, ◌≢◌, refl, sym, ◌∙◌, ap,
  subst, is_blank, Bool-cases, inl, inr, ◌⊎◌, if◌then◌else◌,
}
use nsw_srilanka.Common.Value.{Value, str, Fields, field_at}
use nsw_srilanka.Caseflow.Rows.{Db, CaseRow}
use nsw_srilanka.Caseflow.Repository.{update_case, set_case}
use nsw_srilanka.Taskauthz.Gate.{set_party}
use nsw_srilanka.Trade.Cha.{Consignment, Desk, text_of, consignment_name, name_case}
use nsw_srilanka.Trade.Cha.Persisted.{IsAssigned, named, cha_party}
use nsw_srilanka.Trade.Cha.Facts.{named-parties}

-- A case row, named where a name is given.
abbrev pub with_name : String → Option CaseRow → Option CaseRow
with_name name none = none
with_name name (some r) = if name == "" then some r else some (record r { name = some name })

-- The tables but for the consignment, the role and the case's name are as they were.
pub record IsWritten (c company handle name : String) (d e : Desk) : Type 0 where
  pub known : (r : Consignment) × (d.consignments c ≡ some r)
  pub companies : e.companies ≡ d.companies
  pub chosen : e.consignments c ≡ some (record { cha_company_id = some company })
  pub other_consignments : (k : String) → k ≢ c → e.consignments k ≡ d.consignments k
  pub party :
      e.session.db.parties c "cha"
      ≡ some (record { party_type = "ou"; party_id = handle; assigned_by = none })
  pub other_parties :
      (k s : String) → (k ≢ c) ⊎ (s ≢ "cha") → e.session.db.parties k s ≡ d.session.db.parties k s
  pub case : e.session.db.cases c ≡ with_name name (d.session.db.cases c)
  pub other_cases : (k : String) → k ≢ c → e.session.db.cases k ≡ d.session.db.cases k
  pub flows : e.session.db.flows ≡ d.session.db.flows

differs : (a b : String) → b ≢ a → (a == b) ≡ false
differs a b n = elim (Bool-cases (a == b)) [
  | inl y ↦ absurd (n (sym ((eq_iff a b).0 y)))
  | inr z ↦ z
]

unnamed : (name : String) (o : Option CaseRow) → (name == "") ≡ true → with_name name o ≡ o
unnamed name none e = refl
unnamed name (some r) e = rw e refl

Named : String → String → Db → Db → Type 0
Named c name db new =
    (new.cases c ≡ with_name name (db.cases c))
    × ((k : String) → k ≢ c → new.cases k ≡ db.cases k)
    × (new.flows ≡ db.flows)

renamed :
    (c name : String) (db : Db) (o : Option CaseRow)
    → (name == "") ≡ false
    → db.cases c ≡ o
    → Named c name db (update_case c (λ r. record r { name = some name }) db)
unfolding update_case set_case Named
renamed c name db none n e =
    let q : update_case c (λ r. record r { name = some name }) db ≡ db = rw (update_case, e) refl in
    subst (Named c name db) (sym q) (rw e refl, λ k far. refl, refl)
renamed c name db (some r) n e =
    let q : update_case c (λ r. record r { name = some name }) db
        ≡ set_case c (some (record r { name = some name })) db =
      rw (update_case, e) refl in
    subst (Named c name db) (sym q)
      (rw (e, n, eq_refl c) refl, λ k far. rw (differs c k far) refl, refl)

named-cases : (c name : String) (db : Db) → Named c name db (named c name db)
unfolding named name_case Named
named-cases c name db = elim (Bool-cases (name == "")) [
  | inl y ↦ rw y (sym (unnamed name (db.cases c) y), λ k far. refl, refl)
  | inr n ↦ rw n (renamed c name db (db.cases c) n refl)
]

never : (b : Bool) → (b && false) ≡ false
never true = refl
never false = refl

pub IsAssigned-IsWritten :
    {c company handle name : String} {d e : Desk}
    → IsAssigned c company handle name d e
    → IsWritten c company handle name d e
unfolding set_party Named
IsAssigned-IsWritten {c = c} {company = company} {handle = handle} {name = name} {d = d} {e = e} a =
    let db = (set_party c "cha" (cha_party handle) d.session.db).1 in
    let (case, others, flows) = named-cases c name db in
    let p : e.session.db.parties ≡ db.parties =
      ap (λ (x : Db). x.parties) a.db ∙ named-parties c name db in
    record {
      known = a.known;
      companies = a.companies;
      chosen = ap (λ f. f c) a.consignments ∙ rw (eq_refl c) refl;
      other_consignments = λ k n. ap (λ f. f k) a.consignments ∙ rw (differs c k n) refl;
      party = ap (λ f. f c "cha") p ∙ rw (eq_refl c) refl;
      other_parties = λ k s n. ap (λ f. f k s) p ∙ elim n [
        | inl x ↦ rw (differs c k x) refl
        | inr x ↦ rw (differs "cha" s x, never (c == k)) refl
      ];
      case = ap (λ (x : Db). x.cases c) a.db ∙ case;
      other_cases = λ k n. ap (λ (x : Db). x.cases k) a.db ∙ others k n;
      flows = ap (λ (x : Db). x.flows) a.db ∙ flows;
    }

-- The name that a field gives: its text, unless that is blank.
abbrev pub name_given : Option Value → String
name_given (some (str s)) = if is_blank s then "" else s
name_given v = ""

pub consignment_name-given :
    (inputs : Fields) → consignment_name inputs ≡ name_given (field_at "consignment_name" inputs)
unfolding consignment_name
consignment_name-given inputs = go (field_at "consignment_name" inputs)
  where
    blank : (b : Bool) → ◌≡◌ {A = String} (if b then "" else "") ""
    blank true = refl
    blank false = refl

    go : (v : Option Value) → (if is_blank (text_of v) then "" else text_of v) ≡ name_given v
    go none = blank (is_blank "")
    go (some (str s)) = refl
    go (some v) = blank (is_blank "")

-- A text that is not empty is the value of its field.
pub text_given : (v : Option Value) → (text_of v == "") ≡ false → v ≡ some (str (text_of v))
text_given none h = cc
text_given (some (str s)) h = refl
text_given (some v) h = cc
