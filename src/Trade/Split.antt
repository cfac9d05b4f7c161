-- ===== src/Trade/Split.antt =====
-- internal/trade/plugin_hscode_split.go: from the HS codes of a consignment to the agency workflows
-- that it starts.
pub mod Rules
pub mod Templates
pub mod Adding
pub mod Written
pub mod Started
pub mod Total
use nsw_srilanka.Common.{
  String, ◌==◌, Bool, true, false, ◌||◌, not, Option, none, some, List, [], ◌∷◌, ◌++◌, Dict, lookup,
  contains, keep, if◌then◌else◌,
}
use nsw_srilanka.Common.Value.{
  Value, null, str, arr, obj, Items, nil, cons, Fields, end, field, field_at, set_field,
}
use nsw_srilanka.Trade.{Task, data_of}

-- hscodeSplitConfig
pub record SplitConfig : Type 0 where
  pub mappings : Dict (List String)
  pub replaces : Dict (List String)

pub data SplitError : Type 0 where
  no_config invalid_config no_mappings : SplitError
  replaces_empty replaces_itself replacer_replaced : SplitError
  no_codes codes_not_array codes_empty : SplitError
  code_not_text code_unmapped template_empty no_record : SplitError

-- A value or an error.
pub data Result (A : Type 0) : Type 0 where
  passed : A → Result A
  refused : SplitError → Result A

infixl 5 ◌>>=◌
abbrev pub ◌>>=◌ : {A B : Type 0} → Result A → (A → Result B) → Result B
passed a >>= f = f a
refused e >>= f = refused e

-- One rule of validateReplaces, with the workflows that are replaced so far.
abbrev pub check_others : String → List String → List String → Result (List String)
check_others wf [] replaced = passed replaced
check_others wf (other ∷ others) replaced =
    if other == ""
    then refused replaces_empty
    else if other == wf
    then refused replaces_itself
    else check_others wf others (other ∷ replaced)

abbrev pub check_rules : Dict (List String) → List String → Result (List String)
check_rules [] replaced = passed replaced
check_rules ((wf, others) ∷ rules) replaced = check_others wf others replaced >>= check_rules rules

abbrev pub check_replacers : Dict (List String) → List String → Result (List String)
check_replacers [] replaced = passed replaced
check_replacers ((wf, others) ∷ rules) replaced =
    if contains replaced wf then refused replacer_replaced else check_replacers rules replaced

-- validateReplaces; a Go map is walked in any order, here in that of the list, which only chooses
-- the error among several.
unfoldable pub validate_replaces : Dict (List String) → Result (List String)
validate_replaces rules = check_rules rules [] >>= check_replacers rules

-- The templates so far, which are the keys of `seen` too, with one more.
abbrev pub add_template : String → List String → List String
add_template wf templates = if contains templates wf then templates else templates ++ (wf ∷ [])

abbrev pub add_templates : List String → List String → Result (List String)
add_templates [] templates = passed templates
add_templates (wf ∷ wfs) templates =
    if wf == "" then refused template_empty else add_templates wfs (add_template wf templates)

-- The workflows that an HS code is mapped to.
abbrev pub add_mapped : Option (List String) → List String → Result (List String)
add_mapped none templates = refused code_unmapped
add_mapped (some []) templates = refused code_unmapped
add_mapped (some (wf ∷ wfs)) templates = add_templates (wf ∷ wfs) templates

unfoldable pub add_item : Value → Dict (List String) → List String → Result (List String)
unfolding lookup
add_item (str code) mappings templates = add_mapped (lookup code mappings) templates
add_item v mappings templates = refused code_not_text

-- resolveTemplates, from the templates so far
unfoldable pub resolve_templates : Items → Dict (List String) → List String → Result (List String)
resolve_templates nil mappings templates = passed templates
resolve_templates (cons v vs) mappings templates =
    add_item v mappings templates >>= resolve_templates vs mappings

-- replaces[wf], nil for a key that is missing
unfoldable pub replaced_by : String → Dict (List String) → List String
unfolding lookup
replaced_by wf rules = elim (lookup wf rules) [ none ↦ [] | some others ↦ others ]

-- The keys of `dropped`.
abbrev pub dropped : List String → Dict (List String) → List String
dropped [] rules = []
dropped (wf ∷ wfs) rules = replaced_by wf rules ++ dropped wfs rules

-- applyReplaces
unfoldable pub apply_replaces : List String → Dict (List String) → List String
apply_replaces templates rules = keep (λ wf. not (contains (dropped templates rules) wf)) templates

abbrev pub is_null : Value → Bool
is_null null = true
is_null v = false

-- sharedPayload
unfoldable pub shared_payload : Fields → Fields
shared_payload end = end
shared_payload (field name v rest) =
    let others = shared_payload rest in
    if (name == "hs_codes") || is_null v then others else field name v others

-- The split items, one for each template.
abbrev pub split_item : String → Fields → Value
split_item t payload =
    obj
      (field "template_id" (str t) (field "branch_id" (str t) (field "payload" (obj payload) end)))

abbrev pub split_items : List String → Fields → Items
split_items [] payload = nil
split_items (t ∷ ts) payload = cons (split_item t payload) (split_items ts payload)

abbrev pub codes_of : Option Value → Result Items
codes_of none = refused no_codes
codes_of (some (arr nil)) = refused codes_empty
codes_of (some (arr (cons v vs))) = passed (cons v vs)
codes_of (some v) = refused codes_not_array

abbrev pub check_config : Option SplitConfig → Result SplitConfig
check_config none = refused invalid_config
check_config (some cfg) = elim cfg.mappings [ [] ↦ refused no_mappings | m ∷ ms ↦ passed cfg ]

-- The record with the split items of these templates.
unfoldable pub with_items : List String → Fields → Task → Task
unfolding set_field
with_items ts payload t = record t {
  fields = some (set_field "split_items" (arr (split_items ts payload)) (data_of t));
}

abbrev pub write_items : List String → Fields → Option Task → Result Task
write_items ts payload none = refused no_record
write_items ts payload (some t) = passed (with_items ts payload t)

-- HscodeSplitBuilderFunc, with json.Unmarshal into its config
unfoldable pub build : (String → Option SplitConfig) → String → Fields → Option Task → Result Task
unfolding validate_replaces resolve_templates apply_replaces shared_payload field_at
build decode config inputs task =
    (if config == "" then refused no_config else check_config (decode config)) >>= λ cfg.
    validate_replaces cfg.replaces >>= λ ok. codes_of (field_at "hs_codes" inputs) >>= λ items.
    resolve_templates items cfg.mappings [] >>= λ templates.
    write_items (apply_replaces templates cfg.replaces) (shared_payload inputs) task
