-- ===== src/Trade/Cha/Execution.antt =====
-- Whole runs of Execute (trade/plugin_cha_persist.go).
use nsw_srilanka.Common.{
  String, ◌==◌, Option, none, some, List, ◌≡◌, refl, is_blank, rune_count, any, ltb, Bool-cases,
  inl, inr, ◌⊎◌, if◌then◌else◌,
}
use nsw_srilanka.Common.Value.{Fields, field_at}
use nsw_srilanka.Trade.{Task}
use nsw_srilanka.Trade.Cha
use nsw_srilanka.Trade.Cha.{
  Company, Desk, ChaError, Reply, ok, permanent, retryable, Step, pure, ◌>>=◌, ◌>>◌, call,
  found_company, get_company, assign_cha, parse_config, cha_seed, text_of, consignment_name,
  case_of, checked_name, with_cha, require_cha, execute, company_query, no_company_id, reject,
  seed_from, checked_fields,
}
use nsw_srilanka.Trade.Cha.Steps.{
  SameTables, SameTables-refl, SameTables-trans, call-SameTables, IsRead, IsAtomic, IsAtomic-after,
}
use nsw_srilanka.Trade.Cha.Runs.{assign_cha_cases}

same : (d : Desk) → SameTables d d
same = SameTables-refl

unfoldable pub require_id : String → Step (Unit {0})
require_id id = if id == "" then reject no_company_id else pure tt

pub require_id-IsRead : (id : String) → IsRead (require_id id)
unfolding require_id
require_id-IsRead id d = elim (Bool-cases (id == "")) [
  | inl e ↦ rw e (same d)
  | inr e ↦ rw e (same d)
]

pub require_cha-IsRead : (r : Company) → IsRead (require_cha r)
require_cha-IsRead r d = elim (Bool-cases r.has_cha) [
  | inl e ↦ rw e (same d)
  | inr e ↦ rw e (same d)
]

pub checked_name-IsRead : (name : String) → IsRead (checked_name name)
checked_name-IsRead name d = elim (Bool-cases (ltb 255 (rune_count name))) [
  | inl e ↦ rw e (same d)
  | inr e ↦ rw e (same d)
]

pub case_of-IsRead : (t : Option Task) → IsRead (case_of t)
case_of-IsRead none d = same d
case_of-IsRead (some t) d = elim (Bool-cases (t.case_id == "")) [
  | inl e ↦ rw e (same d)
  | inr e ↦ rw e (same d)
]

found_company-same : (o : Option Company) (d : Desk) → SameTables (found_company o d).1 d
found_company-same none d = same d
found_company-same (some r) d = same d

found_after :
    (r : Reply (Unit {0})) (d : Desk) (id : String)
    → SameTables (Cha.and_then r (λ u d. found_company (d.companies id) d) d).1 d
found_after (ok u) d id = found_company-same (d.companies id) d
found_after r d id = same d

pub get_company-IsRead : (id : String) → IsRead (get_company id)
unfolding get_company
get_company-IsRead id d = elim (Bool-cases (id == "")) [
  | inl e ↦ rw e (same d)
  | inr e ↦ rw e (
      SameTables-trans _ (call company_query d).1 d
        (found_after (call company_query d).0 (call company_query d).1 id)
        (call-SameTables company_query d))
]

checked_fields-same : (o : Option (List String)) (d : Desk) → SameTables (checked_fields o d).1 d
unfolding checked_fields
checked_fields-same none d = same d
checked_fields-same (some names) d = elim (Bool-cases (any is_blank names)) [
  | inl e ↦ rw e (same d)
  | inr e ↦ rw e (same d)
]

pub parse_config-IsRead :
    (decode : String → Option (List String)) (config : String) → IsRead (parse_config decode config)
unfolding parse_config
parse_config-IsRead decode config d = elim (Bool-cases (config == "")) [
  | inl e ↦ rw e (same d)
  | inr e ↦ rw e (checked_fields-same (decode config) d)
]

seed_from-same :
    (r : Company) (names : List String) (o : Option (Option Fields)) (d : Desk)
    → SameTables (seed_from r names o d).1 d
unfolding seed_from
seed_from-same r names none d = same d
seed_from-same r names (some none) d = same d
seed_from-same r names (some (some all)) d = same d

pub cha_seed-IsRead :
    (decode : String → Option (Option Fields)) (r : Company) (names : List String)
    → IsRead (cha_seed decode r names)
unfolding cha_seed
cha_seed-IsRead decode r names d = elim (Bool-cases (r.document == "")) [
  | inl e ↦ rw e (same d)
  | inr e ↦ rw e (seed_from-same r names (decode r.document) d)
]

then_pure :
    {A B : Type 0} (r : Reply A) (b : B) (before d : Desk)
    → ((a : A) × (r ≡ ok a)) ⊎ SameTables d before
    → ((c : B) × ((Cha.and_then r (λ a. pure b) d).0 ≡ ok c))
      ⊎ SameTables (Cha.and_then r (λ a. pure b) d).1 before
then_pure (ok a) b before d h = inl (b, refl)
then_pure (permanent x) b before d (inl (a, e)) = cc
then_pure (permanent x) b before d (inr s) = inr s
then_pure (retryable x) b before d (inl (a, e)) = cc
then_pure (retryable x) b before d (inr s) = inr s

-- assignCHA and what follows it.
written-IsAtomic :
    (c company handle name : String) (t : Task)
    → IsAtomic (assign_cha c company handle name >> pure t)
written-IsAtomic c company handle name t d =
    then_pure (assign_cha c company handle name d).0 t d (assign_cha c company handle name d).1
      (elim (assign_cha_cases c company handle name d) [
        | inl (a, i) ↦ inl (tt, a)
        | inr (a, s) ↦ inr s
      ])

module _ (decode_config : String → Option (List String)) (decode : String → Option (Option Fields))
    (config : String) (inputs : Fields) where
  -- A run that fails has changed no table: the consignments, the cases and their parties, and the
  -- companies are what they were, whichever statement failed.
  pub execute_atomic :
      (task : Option Task) (d : Desk)
      → ((done : Task) × ((execute decode_config decode config inputs task d).0 ≡ ok done))
        ⊎ SameTables (execute decode_config decode config inputs task d).1 d
  unfolding execute require_id
  execute_atomic task =
      let id = text_of (field_at "cha_company_id" inputs) in
      let name = consignment_name inputs in
      IsAtomic-after (parse_config decode_config config) _
        (parse_config-IsRead decode_config config)
        (λ names. IsAtomic-after (require_id id) _ (require_id-IsRead id) (λ u.
          IsAtomic-after (get_company id) _ (get_company-IsRead id) (λ r.
            IsAtomic-after (require_cha r) _ (require_cha-IsRead r) (λ v.
              IsAtomic-after (cha_seed decode r names) _ (cha_seed-IsRead decode r names) (λ cha.
                IsAtomic-after (case_of task) _ (case_of-IsRead task) (λ t.
                  IsAtomic-after (checked_name name) _ (checked_name-IsRead name)
                    (λ w. written-IsAtomic t.case_id id r.ou_handle name (with_cha cha t))))))))
