-- ===== src/Trade/Cha/Handed.antt =====
-- What Execute (trade/plugin_cha_persist.go) reads of its config and hands on with the task.
use nsw_srilanka.Common.{
  String, ◌==◌, Option, none, some, List, [], ◌≡◌, sym, ◌∙◌, subst, contains, inl, inr, ◌⊎◌,
  if◌then◌else◌, refl, false, In, any, is_blank, Bool-cases, eq_iff, ◌≢◌, In-any,
}
use nsw_srilanka.Common.Value.{
  Value, str, obj, Fields, end, field, field_at, set_field, field_at-set_field,
}
use nsw_srilanka.Trade.{Task, data_of}
use nsw_srilanka.Trade.Cha.{
  Company, Desk, ok, parse_config, checked_fields, cha_seed, with_cha, seed,
}
use nsw_srilanka.Trade.Cha.Execution.{require_id}
use nsw_srilanka.Trade.Cha.Seed.{handed_on, cha_seed_exact}

-- What the details of a company hold, of its data: the listed fields with a text that is not blank.
pub record IsChosen (decode : String → Option (Option Fields)) (r : Company) (names : List String)
    (chosen : Fields) : Type 0 where
  pub all : Fields
  pub decoded : ((r.document ≡ "") × (all ≡ end)) ⊎ (decode r.document ≡ some (some all))
  pub exact :
      (k : String)
      → field_at k chosen ≡ (if contains names k then handed_on (field_at k all) else none)

pub seeded :
    (decode : String → Option (Option Fields)) (r : Company) (names : List String) (x : Desk)
    (cha : Value)
    → (cha_seed decode r names x).0 ≡ ok cha
    → (chosen : Fields) × (cha ≡ seed r chosen) × IsChosen decode r names chosen
seeded decode r names x cha h =
    let (chosen, all, e, o, f) = cha_seed_exact decode r names x cha h in
    (chosen, e, record { all = all; decoded = o; exact = f })

pub require_id_ok : (id : String) (d : Desk) → (require_id id d).0 ≡ ok tt → (id == "") ≡ false
unfolding require_id
require_id_ok id d h = elim (Bool-cases (id == "")) [
  | inl y ↦ absurd (let k = rw y at h in cc)
  | inr n ↦ n
]

-- The fields that a config lists: none where there is no config, else those of the list that it
-- decodes to, none of them blank.
pub data Lists (decode : String → Option (List String)) (config : String)
    : List String → Type 0 where
  by_default : config ≡ "" → Lists decode config []
  written :
      (names : List String)
      → config ≢ ""
      → decode config ≡ some names
      → ((name : String) → In name names → is_blank name ≡ false)
      → Lists decode config names

checked_fields-Lists :
    (decode : String → Option (List String)) (config : String) (o : Option (List String))
    (names : List String) (d : Desk)
    → config ≢ ""
    → decode config ≡ o
    → (checked_fields o d).0 ≡ ok names
    → Lists decode config names
unfolding checked_fields
checked_fields-Lists decode config none names d given e h = absurd (cc)
checked_fields-Lists decode config (some all) names d given e h =
    elim (Bool-cases (any is_blank all)) [
      | inl y ↦ absurd (let k = rw y at h in cc)
      | inr n ↦
          let q : all ≡ names = let k = rw n at h in cc in
          subst (Lists decode config) q (
            written all given e (λ name m. elim (Bool-cases (is_blank name)) [
              | inl b ↦ absurd (let c = In-any is_blank m b in cc)
              | inr b ↦ b
            ]))
    ]

pub parse_config-Lists :
    (decode : String → Option (List String)) (config : String) (names : List String) (d : Desk)
    → (parse_config decode config d).0 ≡ ok names
    → Lists decode config names
unfolding parse_config
parse_config-Lists decode config names d h = elim (Bool-cases (config == "")) [
  | inl y ↦
      let q : [] ≡ names = let k = rw y at h in cc in
      subst (Lists decode config) q (by_default ((eq_iff config "").0 y))
  | inr n ↦
      checked_fields-Lists decode config (decode config) names d
        (λ q. let k = (eq_iff config "").1 q in cc) refl (rw n at h)
]

-- The task is handed on with the details of the company, and is otherwise as it was.
pub record IsHanded (r : Company) (chosen : Fields) (t done : Task) : Type 0 where
  pub same_case : done.case_id ≡ t.case_id
  pub after : Fields
  pub fields : done.fields ≡ some after
  pub details : Fields
  pub cha : field_at "cha" after ≡ some (obj details)
  pub id : field_at "id" details ≡ some (str r.id)
  pub name : field_at "name" details ≡ some (str r.name)
  pub chosen_data : field_at "data" details ≡ some (obj chosen)
  pub others : (k : String) → k ≢ "cha" → field_at k after ≡ field_at k (data_of t)

pub with_cha-IsHanded :
    (r : Company) (chosen : Fields) (t : Task) → IsHanded r chosen t (with_cha (seed r chosen) t)
unfolding with_cha field_at
with_cha-IsHanded r chosen t = record {
  same_case = refl;
  after = set_field "cha" (seed r chosen) (data_of t);
  fields = refl;
  details = field "id" (str r.id) (field "name" (str r.name) (field "data" (obj chosen) end));
  cha = field_at-set_field "cha" "cha" (seed r chosen) (data_of t);
  id = refl;
  name = refl;
  chosen_data = refl;
  others = λ k far.
      field_at-set_field "cha" k (seed r chosen) (data_of t) ∙ elim (Bool-cases ("cha" == k)) [
        | inl y ↦ absurd (far (sym ((eq_iff "cha" k).0 y)))
        | inr n ↦ rw n refl
      ];
}
