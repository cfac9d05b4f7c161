-- ===== src/Trade/Split/Total.antt =====
-- When the split of trade/plugin_hscode_split.go succeeds.
use nsw_srilanka.Common.{
  differ, String, Option, some, List, [], ◌∷◌, ◌≡◌, ◌≢◌, refl, In, here, there, Dict, lookup,
}
use nsw_srilanka.Common.Value.{Value, str, arr, Items, nil, cons, Fields, field_at}
use nsw_srilanka.Trade.{Task}
use nsw_srilanka.Trade.Split.{
  SplitConfig, passed, refused, no_mappings, add_template, add_templates, add_item,
  resolve_templates, build,
}
use nsw_srilanka.Trade.Split.Rules.{IsSingle, validate_replaces_exact}
use nsw_srilanka.Trade.Split.Templates.{InItems, first, later}

-- The value is an HS code with workflows, all of them named.
pub record IsMapped (mappings : Dict (List String)) (v : Value) : Type 0 where
  pub code : String
  pub is_text : v ≡ str code
  pub workflow : String
  pub workflows : List String
  pub mapped : lookup code mappings ≡ some (workflow ∷ workflows)
  pub named : (w : String) → In w (workflow ∷ workflows) → w ≢ ""

add_templates_total :
    (wfs ts : List String)
    → ((w : String) → In w wfs → w ≢ "")
    → (out : List String) × (add_templates wfs ts ≡ passed out)
add_templates_total [] ts named = (ts, refl)
add_templates_total (w ∷ wfs) ts named =
    rw (differ w "" (named w here))
      (add_templates_total wfs (add_template w ts) (λ u m. named u (there m)))

add_item_total :
    (m : Dict (List String)) (v : Value) (ts : List String)
    → IsMapped m v
    → (out : List String) × (add_item v m ts ≡ passed out)
unfolding add_item
add_item_total m v ts c =
    rw (c.is_text, c.mapped) (add_templates_total (c.workflow ∷ c.workflows) ts c.named)

resolve_templates_total :
    (items : Items) (m : Dict (List String)) (ts : List String)
    → ((v : Value) → InItems v items → IsMapped m v)
    → (out : List String) × (resolve_templates items m ts ≡ passed out)
unfolding resolve_templates
resolve_templates_total nil m ts each = (ts, refl)
resolve_templates_total (cons v vs) m ts each =
    let (mid, e) = add_item_total m v ts (each v first) in
    rw e (resolve_templates_total vs m mid (λ u i. each u (later i)))

some_mappings :
    (l : Dict (List String)) (c : SplitConfig)
    → l ≢ []
    → (elim l [ [] ↦ refused no_mappings | m ∷ ms ↦ passed c ]) ≡ passed c
some_mappings [] c n = absurd (n refl)
some_mappings (m ∷ ms) c n = refl

-- The split succeeds on every task record, whenever its configuration is given and decodes, with
-- mappings and with rules that have a single reading, and the inputs hold a list of at least one HS
-- code, each mapped to at least one workflow and none to an empty ID.
pub split_total :
    (decode : String → Option SplitConfig) (config : String) (cfg : SplitConfig)
    → config ≢ ""
    → decode config ≡ some cfg
    → cfg.mappings ≢ []
    → IsSingle cfg.replaces
    → (inputs : Fields) (v : Value) (vs : Items)
    → field_at "hs_codes" inputs ≡ some (arr (cons v vs))
    → ((u : Value) → InItems u (cons v vs) → IsMapped cfg.mappings u)
    → (t : Task) → (done : Task) × (build decode config inputs (some t) ≡ passed done)
unfolding build
split_total decode config cfg given decoded maps single inputs v vs codes each t =
    let (ok, checked) = (validate_replaces_exact cfg.replaces).1 single in
    let (out, resolved) = resolve_templates_total (cons v vs) cfg.mappings [] each in
    rw
      (
        differ config "" given,
        decoded,
        some_mappings cfg.mappings cfg maps,
        checked,
        codes,
        resolved,
      )
      (_, refl)
