-- ===== src/Trade/Split/Templates.antt =====
-- The templates that resolveTemplates and applyReplaces (trade/plugin_hscode_split.go) choose.
use nsw_srilanka.Common.{
  lookup-In, String, Option, none, some, List, [], ◌∷◌, ◌≡◌, refl, sym, ◌∙◌, ap, subst, In, here,
  there, In-cons, In-append, In-append_left, In-append_right, Distinct, inl, inr, ◌⊎◌, ◌↔◌, Dict,
  lookup,
}
use nsw_srilanka.Common.Value.{Value, str, Items, nil, cons}
use nsw_srilanka.Trade.Split.{
  SplitError, passed, refused, add_mapped, add_item, resolve_templates, replaced_by, dropped,
}
use nsw_srilanka.Trade.Split.Rules.{Replaces, then_passed}
use nsw_srilanka.Trade.Split.Adding.{Adds, add_templates-Adds}

-- The values of a decoded array.
pub data InItems (v : Value) : Items → Type 0 where
  first : {vs : Items} → InItems v (cons v vs)
  later : {w : Value} {vs : Items} → InItems v vs → InItems v (cons w vs)

-- Some HS code of the list is mapped to the workflow.
pub record IsAsked (mappings : Dict (List String)) (items : Items) (wf : String) : Type 0 where
  pub code : String
  pub listed : InItems (str code) items
  pub workflows : List String
  pub mapped : lookup code mappings ≡ some workflows
  pub among : In wf workflows

-- An item that is accepted is a code with workflows, and adds them.
record IsCode (mappings : Dict (List String)) (v : Value) (before after : List String)
    : Type 0 where
  pub code : String
  pub is_text : v ≡ str code
  pub workflows : List String
  pub mapped : lookup code mappings ≡ some workflows
  pub adds : Adds workflows before after

add_mapped-Adds :
    (found : Option (List String)) (ts out : List String)
    → add_mapped found ts ≡ passed out
    → (wfs : List String) × (found ≡ some wfs) × Adds wfs ts out
add_mapped-Adds none ts out h = cc
add_mapped-Adds (some []) ts out h = cc
add_mapped-Adds (some (w ∷ ws)) ts out h = (w ∷ ws, refl, add_templates-Adds (w ∷ ws) ts out h)

no_result : {e : SplitError} {a : List String} → ¬ (refused e ≡ passed a)
no_result h = cc

add_item-IsCode :
    (v : Value) (m : Dict (List String)) (ts out : List String)
    → add_item v m ts ≡ passed out
    → IsCode m v ts out
unfolding add_item
add_item-IsCode (str c) m ts out h =
    let (wfs, e, a) = add_mapped-Adds (lookup c m) ts out h in
    record { code = c; is_text = refl; workflows = wfs; mapped = e; adds = a }
add_item-IsCode v m ts out h = absurd (no_result h)

In-items : {v w : Value} {vs : Items} → InItems v (cons w vs) → (v ≡ w) ⊎ InItems v vs
In-items first = inl refl
In-items (later m) = inr m

IsAsked-later :
    {m : Dict (List String)} {v : Value} {vs : Items} {w : String}
    → IsAsked m vs w
    → IsAsked m (cons v vs) w
IsAsked-later a = record {
  code = a.code;
  listed = later a.listed;
  workflows = a.workflows;
  mapped = a.mapped;
  among = a.among;
}

-- What resolveTemplates gives: each workflow asked for, once.
pub resolve_templates_lem :
    (items : Items) (m : Dict (List String)) (ts out : List String)
    → resolve_templates items m ts ≡ passed out
    → ((w : String) → In w out → IsAsked m items w ⊎ In w ts)
      × ((w : String) → IsAsked m items w ⊎ In w ts → In w out)
      × (Distinct ts → Distinct out)
unfolding resolve_templates
resolve_templates_lem nil m ts out h =
    let e : ts ≡ out = cc in
    (
      λ w i. inr (subst (In w) (sym e) i),
      λ w i. elim i [ inl a ↦ elim a.listed [ ] | inr n ↦ subst (In w) e n ],
      subst Distinct e,
    )
resolve_templates_lem (cons v vs) m ts out h =
    let (mid, a, b) = then_passed (add_item v m ts) _ h in
    let (from, into, once) = resolve_templates_lem vs m mid out b in
    let c = add_item-IsCode v m ts mid a in
    (
      λ w i. elim (from w i) [
        | inl asked ↦ inl (IsAsked-later asked)
        | inr j ↦ elim (c.adds.only w j) [
          | inl k ↦ inl (record {
            code = c.code;
            listed = subst (λ u. InItems u (cons v vs)) c.is_text first;
            workflows = c.workflows;
            mapped = c.mapped;
            among = k;
          })
          | inr k ↦ inr k
        ]
      ],
      λ w i. elim i [
        | inl asked ↦ at_first v vs m ts mid out w c into asked asked.listed
        | inr k ↦ into w (inr (c.adds.kept w k))
      ],
      λ d. once (c.adds.distinct d),
    )
  where
    at_first :
        (v : Value) (vs : Items) (m : Dict (List String)) (ts mid out : List String) (w : String)
        → IsCode m v ts mid
        → ((u : String) → IsAsked m vs u ⊎ In u mid → In u out)
        → (a : IsAsked m (cons v vs) w) → InItems (str a.code) (cons v vs)
        → In w out
    at_first v vs m ts mid out w c into a i = elim (In-items i) [
      | inl e ↦
          let q : c.code ≡ a.code = let t = c.is_text in cc in
          let p : some c.workflows ≡ some a.workflows =
            sym c.mapped ∙ ap (λ k. lookup k m) q ∙ a.mapped in
          let s : c.workflows ≡ a.workflows = cc in
          into w (inr (c.adds.all_in w (subst (In w) (sym s) a.among)))
      | inr n ↦ into w (
          inl (record {
            code = a.code;
            listed = n;
            workflows = a.workflows;
            mapped = a.mapped;
            among = a.among;
          }))
    ]

pub In_dropped :
    (ts : List String) (rules : Dict (List String)) (w : String)
    → In w (dropped ts rules) ↔ ((t : String) × In t ts × In w (replaced_by t rules))
In_dropped [] rules w = (λ m. elim m [ ], λ m. elim m.1 [ ])
In_dropped (x ∷ ts) rules w = (
  λ m. elim (In-append (replaced_by x rules) m) [
    | inl i ↦ (x, here, i)
    | inr i ↦ let (t, j, k) = (In_dropped ts rules w).0 i in (t, there j, k)
  ],
  λ (t, j, k). elim (In-cons j) [
    | inl e ↦ In-append_left (dropped ts rules) (subst (λ u. In w (replaced_by u rules)) e k)
    | inr n ↦ In-append_right (replaced_by x rules) ((In_dropped ts rules w).1 (t, n, k))
  ],
)

pub replaced_by-Replaces :
    (rules : Dict (List String)) (t w : String) → In w (replaced_by t rules) → Replaces rules t w
unfolding lookup replaced_by
replaced_by-Replaces rules t w m = elim (found (lookup t rules) refl) [
  | inl e ↦ absurd (none_in (subst (λ o. In w (of o)) e m))
  | inr r ↦ (r.0, lookup-In t rules r.0 r.1, subst (λ o. In w (of o)) r.1 m)
]
  where
    of : Option (List String) → List String
    of o = elim o [ none ↦ [] | some others ↦ others ]

    none_in : ¬ (In w [])
    none_in i = elim i [ ]

    found :
        (o : Option (List String))
        → lookup t rules ≡ o
        → (lookup t rules ≡ none) ⊎ ((l : List String) × (lookup t rules ≡ some l))
    found none e = inl e
    found (some l) e = inr (l, e)
