-- ===== src/Trade/Split/Started.antt =====
-- The workflows that the split starts for a consignment (trade/plugin_hscode_split.go).
use nsw_srilanka.Common.{
  contains-In, not_contains, keep-Distinct, String, ◌==◌, Bool, true, false, not, Option, none,
  some, List, [], ◌∷◌, ◌≡◌, refl, ap, arith, contains, In, In-keep, keep-In, Distinct, Bool-cases,
  inl, inr, ◌⊎◌, ◌↔◌, Dict, lookup, subst, sym, ◌∙◌, if◌then◌else◌,
}
use nsw_srilanka.Common.Value.{Value, arr, Items, cons, Fields, field_at}
use nsw_srilanka.Trade.{Task}
use nsw_srilanka.Trade.Split.{
  SplitConfig, passed, refused, check_config, codes_of, validate_replaces, resolve_templates,
  apply_replaces, replaced_by, dropped, shared_payload, with_items, write_items, no_config,
  no_mappings, build,
}
use nsw_srilanka.Trade.Split.Rules.{Replaces, IsSingle, then_passed, validate_replaces_exact}
use nsw_srilanka.Trade.Split.Written.{HasItems, with_items-HasItems}
use nsw_srilanka.Trade.Split.Templates.{
  IsAsked, resolve_templates_lem, In_dropped, replaced_by-Replaces,
}

not_kept : (b : Bool) → not b ≡ true → b ≡ false
not_kept b h = ground arith

In-apply_replaces :
    (ts : List String) (rules : Dict (List String)) (w : String)
    → In w (apply_replaces ts rules)
      ↔ (In w ts × ((t : String) → In t ts → ¬ (In w (replaced_by t rules))))
unfolding apply_replaces
In-apply_replaces ts rules w = (
  λ m.
      let (i, p) = In-keep (λ v. not (contains (dropped ts rules) v)) ts m in
      (
        i,
        λ t j k.
            not_contains (dropped ts rules) w (not_kept (contains (dropped ts rules) w) p)
              ((In_dropped ts rules w).1 (t, j, k)),
      ),
  λ (i, free). keep-In (λ v. not (contains (dropped ts rules) v)) i (allowed free),
)
  where
    allowed :
        ((t : String) → In t ts → ¬ (In w (replaced_by t rules)))
        → not (contains (dropped ts rules) w) ≡ true
    allowed free = elim (Bool-cases (contains (dropped ts rules) w)) [
      | inl e ↦
          let (t, j, k) = (In_dropped ts rules w).0 (contains-In (dropped ts rules) w e) in
          absurd (free t j k)
      | inr e ↦ rw e refl
    ]

-- A workflow is dropped only for one that stays: what replaces is not replaced itself.
apply_replaces-covers :
    (ts : List String) (rules : Dict (List String))
    → IsSingle rules
    → (w : String) → In w ts
    → In w (apply_replaces ts rules)
      ⊎ ((t : String) × In t (apply_replaces ts rules) × In w (replaced_by t rules))
apply_replaces-covers ts rules single w m = elim (Bool-cases (contains (dropped ts rules) w)) [
  | inl e ↦
      let (t, j, k) = (In_dropped ts rules w).0 (contains-In (dropped ts rules) w e) in
      inr (t, (In-apply_replaces ts rules t).1 (j, stays t w k), k)
  | inr e ↦ inl (
      (In-apply_replaces ts rules w).1
        (m, λ t j k. not_contains (dropped ts rules) w e ((In_dropped ts rules w).1 (t, j, k))))
]
  where
    stays :
        (t w : String)
        → In w (replaced_by t rules)
        → (u : String) → In u ts
        → ¬ (In t (replaced_by u rules))
    stays t w k u j l =
        let r = replaced_by-Replaces rules t w k in
        single.flat t r.0 r.1 u (replaced_by-Replaces rules u t l)

Distinct-apply_replaces :
    (ts : List String) (rules : Dict (List String))
    → Distinct ts
    → Distinct (apply_replaces ts rules)
unfolding apply_replaces
Distinct-apply_replaces ts rules d = keep-Distinct (λ v. not (contains (dropped ts rules) v)) ts d

-- What a successful run chose and wrote.
record Run (decode : String → Option SplitConfig) (config : String) (inputs : Fields)
    (t : Option Task) (done : Task) : Type 0 where
  pub cfg : SplitConfig
  pub decoded : decode config ≡ some cfg
  pub single : IsSingle cfg.replaces
  pub items : Items
  pub codes : field_at "hs_codes" inputs ≡ some (arr items)
  pub templates : List String
  pub resolved : resolve_templates items cfg.mappings [] ≡ passed templates
  pub written :
      write_items (apply_replaces templates cfg.replaces) (shared_payload inputs) t ≡ passed done

some_mappings :
    (l : Dict (List String)) (c cfg : SplitConfig)
    → (elim l [ [] ↦ refused no_mappings | m ∷ ms ↦ passed c ]) ≡ passed cfg
    → c ≡ cfg
some_mappings [] c cfg h = cc
some_mappings (m ∷ ms) c cfg h = cc

checked : (o : Option SplitConfig) (cfg : SplitConfig) → check_config o ≡ passed cfg → o ≡ some cfg
checked none cfg h = cc
checked (some c) cfg h = ap some (some_mappings c.mappings c cfg h)

codes : (o : Option Value) (items : Items) → codes_of o ≡ passed items → o ≡ some (arr items)
codes (some (arr (cons v vs))) items h = cc
codes o items h = cc

build-Run :
    (decode : String → Option SplitConfig) (config : String) (inputs : Fields) (t : Option Task)
    (done : Task)
    → build decode config inputs t ≡ passed done
    → Run decode config inputs t done
unfolding build
build-Run decode config inputs t done h =
    let (cfg, a, h1) =
      then_passed (if config == "" then refused no_config else check_config (decode config)) _ h in
    let (ok, b, h2) = then_passed (validate_replaces cfg.replaces) _ h1 in
    let (items, c, h3) = then_passed (codes_of (field_at "hs_codes" inputs)) _ h2 in
    let (templates, d, e) = then_passed (resolve_templates items cfg.mappings []) _ h3 in
    let a' : check_config (decode config) ≡ passed cfg = ground arith in
    record {
      cfg = cfg;
      decoded = checked (decode config) cfg a';
      single = (validate_replaces_exact cfg.replaces).0 (ok, b);
      items = items;
      codes = codes (field_at "hs_codes" inputs) items c;
      templates = templates;
      resolved = d;
      written = e;
    }

-- The rule of a workflow, the one that its key has, names another that it takes the place of.
abbrev pub Overrides : Dict (List String) → String → String → Type 0
Overrides rules by w = (others : List String) × (lookup by rules ≡ some others) × In w others

replaced_by-Overrides :
    (rules : Dict (List String)) (by w : String)
    → In w (replaced_by by rules) ↔ Overrides rules by w
unfolding replaced_by
replaced_by-Overrides rules by w = go (lookup by rules) refl
  where
    go :
        (o : Option (List String))
        → lookup by rules ≡ o
        → In w (replaced_by by rules) ↔ Overrides rules by w
    go none e =
        let q : replaced_by by rules ≡ [] = rw (replaced_by, e) refl in
        (
          λ m. absurd (let k = subst (In w) q m in elim k [ ]),
          λ (others, f, m). absurd (let z = sym e ∙ f in cc),
        )
    go (some l) e =
        let q : replaced_by by rules ≡ l = rw (replaced_by, e) refl in
        (
          λ m. (l, e, subst (In w) q m),
          λ (others, f, m). let z : l ≡ others = cc in subst (In w) (sym (q ∙ z)) m,
        )

module _ (decode : String → Option SplitConfig) (config : String) (inputs : Fields)
    (t done : Task) where
  -- When the split succeeds, the task's field "split_items" holds one item for each workflow that some
  -- HS code of the consignment is mapped to and that no other such workflow replaces, each once. An item
  -- has the workflow for its template and its branch, and a payload of exactly the fields of the inputs
  -- but the HS codes and those that are null. The task is otherwise as it was.
  pub split_exact :
      build decode config inputs (some t) ≡ passed done
      → (cfg : SplitConfig) × (items : Items) × (started : List String) × (decode config ≡ some cfg)
        × (field_at "hs_codes" inputs ≡ some (arr items))
        × HasItems inputs started t done
        × Distinct started
        × ((w : String)
            → In w started ↔ (
                IsAsked cfg.mappings items w
                × ((by : String)
                    → IsAsked cfg.mappings items by
                    → ¬ (Overrides cfg.replaces by w))))
  split_exact h =
      let r = build-Run decode config inputs (some t) done h in
      let (from, into, once) =
        resolve_templates_lem r.items r.cfg.mappings [] r.templates r.resolved in
      let asked : (w : String) → In w r.templates → IsAsked r.cfg.mappings r.items w =
        λ w i. elim (from w i) [ inl a ↦ a | inr n ↦ elim n [ ] ] in
      (
        r.cfg,
        r.items,
        apply_replaces r.templates r.cfg.replaces,
        r.decoded,
        r.codes,
        subst (HasItems inputs (apply_replaces r.templates r.cfg.replaces) t)
            (let w = r.written in cc)
            (with_items-HasItems inputs (apply_replaces r.templates r.cfg.replaces) t),
        Distinct-apply_replaces r.templates r.cfg.replaces (once tt),
        λ w. (
          λ i.
              let (j, free) = (In-apply_replaces r.templates r.cfg.replaces w).0 i in
              (
                asked w j,
                λ by a k.
                    free by (into by (inl a)) ((replaced_by-Overrides r.cfg.replaces by w).1 k),
              ),
          λ (a, free). (In-apply_replaces r.templates r.cfg.replaces w).1 (
            into w (inl a),
            λ by j k. free by (asked by j) ((replaced_by-Overrides r.cfg.replaces by w).0 k),
          ),
        ),
      )

  -- When the split succeeds, every workflow that an HS code of the consignment is mapped to is
  -- started, or one is started that the configuration says takes its place.
  pub split_covers :
      build decode config inputs (some t) ≡ passed done
      → (cfg : SplitConfig) × (items : Items) × (started : List String) × (decode config ≡ some cfg)
        × (field_at "hs_codes" inputs ≡ some (arr items))
        × (done ≡ with_items started (shared_payload inputs) t)
        × ((w : String)
            → IsAsked cfg.mappings items w
            → In w started ⊎ ((by : String) × In by started × Replaces cfg.replaces by w))
  split_covers h =
      let r = build-Run decode config inputs (some t) done h in
      let (from, into, once) =
        resolve_templates_lem r.items r.cfg.mappings [] r.templates r.resolved in
      (
        r.cfg,
        r.items,
        apply_replaces r.templates r.cfg.replaces,
        r.decoded,
        r.codes,
        (let w = r.written in cc),
        λ w a. elim (apply_replaces-covers r.templates r.cfg.replaces r.single w (into w (inl a))) [
          | inl i ↦ inl i
          | inr (by, i, k) ↦ inr (by, i, replaced_by-Replaces r.cfg.replaces by w k)
        ],
      )
