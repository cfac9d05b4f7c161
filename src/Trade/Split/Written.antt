-- ===== src/Trade/Split/Written.antt =====
-- What the split writes into the task's record: sharedPayload and the items of
-- trade/plugin_hscode_split.go, in the words of the record.
use nsw_srilanka.Common.{
  String, ◌==◌, eq_iff, true, false, ◌||◌, some, List, [], ◌∷◌, ◌≡◌, refl, sym, ◌∙◌, ◌≢◌, ◌↔◌,
  Bool-cases, inl, inr, ◌⊎◌, subst, arith,
}
use nsw_srilanka.Common.Value.{
  Value, null, str, arr, obj, Items, nil, cons, Fields, end, field, field_at, set_field,
  field_at-set_field,
}
use nsw_srilanka.Trade.{Task, data_of}
use nsw_srilanka.Trade.Split.{is_null, shared_payload, split_items, with_items}

-- The fields have this value under this name.
unfoldable pub Entry : String → Value → Fields → Type 0
Entry name v end = ⊥
Entry name v (field k w rest) = ((k ≡ name) × (w ≡ v)) ⊎ Entry name v rest

-- `into` has exactly the fields of `from` but the HS codes and those that are null.
abbrev pub IsShared : Fields → Fields → Type 0
IsShared from into =
    (name : String) (v : Value)
    → Entry name v into ↔ (Entry name v from × (name ≢ "hs_codes") × (v ≢ null))

-- One item for each workflow, in order, which is its template and its branch, with the payload.
pub data IsItems (payload : Fields) : List String → Items → Type 0 where
  no_item : IsItems payload [] nil
  one_more :
      {w : String} {ws : List String} {items : Items} (item : Fields)
      → field_at "template_id" item ≡ some (str w)
      → field_at "branch_id" item ≡ some (str w)
      → field_at "payload" item ≡ some (obj payload)
      → IsItems payload ws items
      → IsItems payload (w ∷ ws) (cons (obj item) items)

-- The record of a task that was split into workflows.
pub record HasItems (inputs : Fields) (started : List String) (t done : Task) : Type 0 where
  pub same_case : done.case_id ≡ t.case_id
  pub after : Fields
  pub fields : done.fields ≡ some after
  pub payload : Fields
  pub shared : IsShared inputs payload
  pub items : Items
  pub written : field_at "split_items" after ≡ some (arr items)
  pub each : IsItems payload started items
  pub others : (k : String) → k ≢ "split_items" → field_at k after ≡ field_at k (data_of t)

not_null : (v : Value) → is_null v ≡ false → v ≢ null
not_null v h e = let k : is_null v ≡ true = rw e refl in cc

is_null-null : (v : Value) → is_null v ≡ true → v ≡ null
is_null-null null h = refl
is_null-null v h = cc

shared_from :
    (fs : Fields) (name : String) (v : Value)
    → Entry name v (shared_payload fs)
    → Entry name v fs × (name ≢ "hs_codes") × (v ≢ null)
unfolding shared_payload Entry
shared_from end name v m = absurd m
shared_from (field k w rest) name v m = elim (Bool-cases ((k == "hs_codes") || is_null w)) [
  | inl y ↦ let (i, a, b) = shared_from rest name v (rw y at m) in (inr i, a, b)
  | inr n ↦ elim (rw n at m) [
    | inl (p, q) ↦ (
      inl (p, q),
      (λ e. let x = (eq_iff k "hs_codes").1 (p ∙ e) in let z = rw x at n in cc),
      subst (λ x. x ≢ null) q (not_null w (ground arith)),
    )
    | inr i ↦ let (j, a, b) = shared_from rest name v i in (inr j, a, b)
  ]
]

shared_into :
    (fs : Fields) (name : String) (v : Value)
    → Entry name v fs
    → name ≢ "hs_codes"
    → v ≢ null
    → Entry name v (shared_payload fs)
unfolding shared_payload Entry
shared_into end name v m far some_value = absurd m
shared_into (field k w rest) name v m far some_value =
    elim (Bool-cases ((k == "hs_codes") || is_null w)) [
      | inl y ↦ rw y (elim m [
        | inl (p, q) ↦ absurd (elim (Bool-cases (k == "hs_codes")) [
          | inl e ↦ far (sym p ∙ (eq_iff k "hs_codes").0 e)
          | inr e ↦ some_value (sym q ∙ is_null-null w (ground arith))
        ])
        | inr i ↦ shared_into rest name v i far some_value
      ])
      | inr n ↦
          rw n (elim m [ inl i ↦ inl i | inr i ↦ inr (shared_into rest name v i far some_value) ])
    ]

split_items-IsItems :
    (payload : Fields) (ws : List String) → IsItems payload ws (split_items ws payload)
unfolding field_at
split_items-IsItems payload [] = no_item
split_items-IsItems payload (w ∷ ws) =
    one_more
      (field "template_id" (str w) (field "branch_id" (str w) (field "payload" (obj payload) end)))
      refl refl refl (split_items-IsItems payload ws)

pub with_items-HasItems :
    (inputs : Fields) (started : List String) (t : Task)
    → HasItems inputs started t (with_items started (shared_payload inputs) t)
unfolding with_items
with_items-HasItems inputs started t = record {
  same_case = refl;
  after = set_field "split_items" (arr (split_items started (shared_payload inputs))) (data_of t);
  fields = refl;
  payload = shared_payload inputs;
  shared = λ name v. (shared_from inputs name v, λ (m, a, b). shared_into inputs name v m a b);
  items = split_items started (shared_payload inputs);
  written = field_at-set_field "split_items" "split_items" _ (data_of t);
  each = split_items-IsItems (shared_payload inputs) started;
  others = λ k far.
      field_at-set_field "split_items" k _ (data_of t) ∙ elim (Bool-cases ("split_items" == k)) [
        | inl y ↦ absurd (far (sym ((eq_iff "split_items" k).0 y)))
        | inr n ↦ rw n refl
      ];
}
