-- ===== src/Trade/Split/Adding.antt =====
-- How a step of resolveTemplates (trade/plugin_hscode_split.go) changes the templates.
use nsw_srilanka.Common.{
  contains-In, not_contains, Distinct-snoc, String, List, [], ◌∷◌, ◌≡◌, sym, subst, arith, contains,
  In, here, there, In-cons, In-append, In-append_left, In-append_right, Distinct, Bool-cases, inl,
  inr, ◌⊎◌,
}
use nsw_srilanka.Trade.Split.{passed, add_template, add_templates}

-- What one step may do to the templates: keep them, and add those of the given list.
pub record Adds (given before after : List String) : Type 0 where
  pub all_in : (w : String) → In w given → In w after
  pub kept : (w : String) → In w before → In w after
  pub only : (w : String) → In w after → In w given ⊎ In w before
  pub distinct : Distinct before → Distinct after

pub add_template-Adds : (x : String) (ts : List String) → Adds (x ∷ []) ts (add_template x ts)
add_template-Adds x ts = elim (Bool-cases (contains ts x)) [
  | inl e ↦ rw e (record {
    all_in = λ w m. elim (In-cons m) [
      | inl q ↦ subst (λ y. In y ts) (sym q) (contains-In ts x e)
      | inr n ↦ elim n [ ]
    ];
    kept = λ w m. m;
    only = λ w m. inr m;
    distinct = λ d. d;
  })
  | inr e ↦ rw e (record {
    all_in = λ w m. In-append_right ts m;
    kept = λ w m. In-append_left (x ∷ []) m;
    only = λ w m. elim (In-append ts m) [ inl i ↦ inr i | inr i ↦ inl i ];
    distinct = λ d. Distinct-snoc ts x d (not_contains ts x e);
  })
]

pub Adds-trans :
    (x : String) (xs a b c : List String) → Adds (x ∷ []) a b → Adds xs b c → Adds (x ∷ xs) a c
Adds-trans x xs a b c p q = record {
  all_in = λ w m. elim (In-cons m) [
    | inl e ↦ q.kept w (p.all_in w (subst (λ y. In w (y ∷ [])) e here))
    | inr n ↦ q.all_in w n
  ];
  kept = λ w m. q.kept w (p.kept w m);
  only = λ w m. elim (q.only w m) [
    | inl i ↦ inl (there i)
    | inr i ↦ elim (p.only w i) [
      | inl j ↦ elim (In-cons j) [
        | inl e ↦ inl (subst (λ y. In y (x ∷ xs)) (sym e) here)
        | inr n ↦ elim n [ ]
      ]
      | inr j ↦ inr j
    ]
  ];
  distinct = λ d. q.distinct (p.distinct d);
}

pub Adds-none : (a : List String) → Adds [] a a
Adds-none a = record {
  all_in = λ w m. elim m [ ];
  kept = λ w m. m;
  only = λ w m. inr m;
  distinct = λ d. d;
}

pub add_templates-Adds :
    (wfs ts out : List String) → add_templates wfs ts ≡ passed out → Adds wfs ts out
add_templates-Adds [] ts out h = subst (Adds [] ts) (let e : ts ≡ out = cc in e) (Adds-none ts)
add_templates-Adds (x ∷ wfs) ts out h =
    let r : add_templates wfs (add_template x ts) ≡ passed out = ground arith in
    Adds-trans x wfs ts (add_template x ts) out (add_template-Adds x ts)
      (add_templates-Adds wfs (add_template x ts) out r)
