-- ===== src/Trade/Cha/Seed.antt =====
-- The details of a CHA that chaSeed (trade/plugin_cha_persist.go) hands to the agency flows.
use nsw_srilanka.Common.{
  String, ◌==◌, eq_iff, Bool, true, false, Option, none, some, List, [], ◌∷◌, ◌≡◌, refl, sym, ◌∙◌,
  arith, contains, is_blank, Bool-cases, inl, inr, ◌⊎◌, if◌then◌else◌,
}
use nsw_srilanka.Common.Value.{Value, str, Fields, end, field_at, field_at-set_field}
use nsw_srilanka.Trade.Cha.{Company, Desk, ok, add_seed, add_seeds, seed, seed_from, cha_seed}

-- The value that a data field is handed on with: its text, unless that is blank.
abbrev pub handed_on : Option Value → Option Value
handed_on (some (str v)) = if is_blank v then none else some (str v)
handed_on v = none

abbrev pub or_else : Option Value → Option Value → Option Value
or_else (some v) w = some v
or_else none w = w

field_at-add_seed :
    (k name : String) (v : Option Value) (acc : Fields)
    → field_at k (add_seed name v acc)
      ≡ (if name == k then or_else (handed_on v) (field_at k acc) else field_at k acc)
unfolding add_seed
field_at-add_seed k name (some (str v)) acc = elim (Bool-cases (is_blank v)) [
  | inl e ↦ ground (arith, e)
  | inr e ↦ ground (arith, e, field_at-set_field name k (str v) acc)
]
field_at-add_seed k name v acc = ground arith

twice :
    (b : Bool) (v w : Option Value)
    → (if b then or_else v (or_else v w) else or_else v w) ≡ or_else v w
twice true none w = refl
twice true (some v) w = refl
twice false v w = refl

field_at-add_seeds :
    (k : String) (names : List String) (all acc : Fields)
    → field_at k (add_seeds names all acc) ≡ (
        if contains names k
        then or_else (handed_on (field_at k all)) (field_at k acc)
        else field_at k acc)
unfolding add_seeds
field_at-add_seeds k [] all acc = refl
field_at-add_seeds k (name ∷ names) all acc =
    rw
      (
        field_at-add_seeds k names all (add_seed name (field_at name all) acc),
        field_at-add_seed k name (field_at name all) acc,
      )
      (elim (Bool-cases (name == k)) [
        | inl e ↦
            let q = (eq_iff name k).0 e in
            rw (e, q) (twice (contains names k) (handed_on (field_at k all)) (field_at k acc))
        | inr e ↦ rw e refl
      ])

decoded :
    (r : Company) (names : List String) (d : Desk) (cha : Value) (o : Option (Option Fields))
    → (seed_from r names o d).0 ≡ ok cha
    → (all : Fields) × (o ≡ some (some all)) × (cha ≡ seed r (add_seeds names all end))
unfolding seed_from
decoded r names d cha none h = cc
decoded r names d cha (some none) h = cc
decoded r names d cha (some (some all)) h = (all, refl, cc)

read :
    (names : List String) (all : Fields) (k : String)
    → field_at k (add_seeds names all end)
      ≡ (if contains names k then handed_on (field_at k all) else none)
unfolding field_at
read names all k =
    field_at-add_seeds k names all end ∙ plain (contains names k) (handed_on (field_at k all))
  where
    plain :
        (b : Bool) (v : Option Value)
        → (if b then or_else v (field_at k end) else field_at k end) ≡ (if b then v else none)
    plain true none = refl
    plain true (some v) = refl
    plain false v = refl

-- The details carry, of the company's data, exactly the listed fields that hold a text which is not
-- blank, each with that text; this is so whenever the details can be made.
pub cha_seed_exact :
    (decode : String → Option (Option Fields)) (r : Company) (names : List String) (d : Desk)
    (cha : Value)
    → (cha_seed decode r names d).0 ≡ ok cha
    → (chosen all : Fields) × (cha ≡ seed r chosen)
      × (((r.document ≡ "") × (all ≡ end)) ⊎ (decode r.document ≡ some (some all)))
      × ((k : String)
          → field_at k chosen ≡ (if contains names k then handed_on (field_at k all) else none))
unfolding cha_seed seed_from
cha_seed_exact decode r names d cha h = elim (Bool-cases (r.document == "")) [
  | inl e ↦ (
    add_seeds names end end,
    end,
    ground arith,
    inl ((eq_iff r.document "").0 e, refl),
    read names end,
  )
  | inr e ↦
      let (all, p, q) = decoded r names d cha (decode r.document) (
        let x : (cha_seed decode r names d).0 ≡ (seed_from r names (decode r.document) d).0 =
          rw e refl in
        sym x ∙ h) in
      (add_seeds names all end, all, q, inr p, read names all)
]
