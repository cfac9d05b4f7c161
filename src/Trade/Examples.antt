-- ===== src/Trade/Examples.antt =====
-- Runs of the system tasks of internal/trade.
use nsw_srilanka.Common.{
  String, ◌==◌, true, false, Option, none, some, List, [], ◌∷◌, ◌≡◌, ◌≢◌, ◌↔◌, ◌⊎◌, refl,
  if◌then◌else◌, In, here, there, Distinct, lookup,
}
use nsw_srilanka.Common.Value.{Value, str, arr, nil, cons, Items, Fields, end, field, field_at}
use nsw_srilanka.Caseflow.Rows.{Db, in_progress}
use nsw_srilanka.Caseflow.Exec.{calm}
use nsw_srilanka.Trade.{Task}
use nsw_srilanka.Trade.Split.{
  SplitConfig, build, add_item, passed, refused, replaces_itself, with_items, shared_payload,
  replaced_by, validate_replaces,
}
use nsw_srilanka.Trade.Split.Rules.{IsSingle, Replaces, validate_replaces_exact}
use nsw_srilanka.Trade.Split.Templates.{IsAsked, InItems, first, later}
use nsw_srilanka.Trade.Split.Written.{HasItems}
use nsw_srilanka.Trade.Split.Started.{Overrides, split_exact, split_covers}
use nsw_srilanka.Trade.Split.Total.{IsMapped, split_total}
use nsw_srilanka.Trade.Cha.{
  Company, Desk, ok, retryable, consignment_query, execute, with_cha, checked_fields, seed,
}
use nsw_srilanka.Trade.Cha.Steps.{SameTables}
use nsw_srilanka.Trade.Cha.Execution.{execute_atomic}
use nsw_srilanka.Trade.Cha.Recorded.{IsRecorded, execute-IsRecorded}

-- Tea goes through its own workflow, which takes the place of the customs one.
abbrev tea : SplitConfig
tea = record {
  mappings = ("0902", "tea" ∷ []) ∷ ("4011", "customs" ∷ []) ∷ [];
  replaces = ("tea", "customs" ∷ []) ∷ [];
}

abbrev decode : String → Option SplitConfig
decode s = some tea

abbrev both : Items
both = cons (str "4011") (cons (str "0902") nil)

abbrev inputs : Fields
inputs = field "company" (str "c1") (field "hs_codes" (arr both) end)

abbrev task : Task
task = record { case_id = "k1"; fields = none }

abbrev split_done : Task
split_done = with_items ("tea" ∷ []) (field "company" (str "c1") end) task

tea_only : build decode "{}" inputs (some task) ≡ passed split_done
unfolding build with_items add_item replaced_by
tea_only = refl

itself : validate_replaces (("tea", "tea" ∷ []) ∷ []) ≡ refused replaces_itself
unfolding validate_replaces
itself = refl

tea_checked : validate_replaces tea.replaces ≡ passed ("customs" ∷ [])
unfolding validate_replaces
tea_checked = refl

tea-IsSingle : IsSingle tea.replaces
tea-IsSingle = (validate_replaces_exact tea.replaces).0 (_, tea_checked)

split_exact_example :
    (cfg : SplitConfig) × (items : Items) × (started : List String) × (decode "{}" ≡ some cfg)
    × (field_at "hs_codes" inputs ≡ some (arr items))
    × HasItems inputs started task split_done
    × Distinct started
    × ((w : String)
        → In w started ↔ (
            IsAsked cfg.mappings items w
            × ((by : String) → IsAsked cfg.mappings items by → ¬ (Overrides cfg.replaces by w))))
split_exact_example = split_exact decode "{}" inputs task split_done tea_only

split_covers_example :
    (cfg : SplitConfig) × (items : Items) × (started : List String) × (decode "{}" ≡ some cfg)
    × (field_at "hs_codes" inputs ≡ some (arr items))
    × (split_done ≡ with_items started (shared_payload inputs) task)
    × ((w : String)
        → IsAsked cfg.mappings items w
        → In w started ⊎ ((by : String) × In by started × Replaces cfg.replaces by w))
split_covers_example = split_covers decode "{}" inputs task split_done tea_only

alone : (x : String) → x ≢ "" → (w : String) → In w (x ∷ []) → w ≢ ""
alone x n w here = n
alone x n w (there m) = elim m [ ]

mapped : (v : Value) → InItems v both → IsMapped tea.mappings v
unfolding lookup
mapped v first = record {
  code = "4011";
  is_text = refl;
  workflow = "customs";
  workflows = [];
  mapped = refl;
  named = λ w m. alone "customs" (λ e. cc) w m;
}
mapped v (later first) = record {
  code = "0902";
  is_text = refl;
  workflow = "tea";
  workflows = [];
  mapped = refl;
  named = λ w m. alone "tea" (λ e. cc) w m;
}
mapped v (later (later m)) = elim m [ ]

codes : field_at "hs_codes" inputs ≡ some (arr both)
unfolding field_at
codes = refl

split_total_example : (done : Task) × (build decode "{}" inputs (some task) ≡ passed done)
split_total_example =
    split_total decode "{}" tea (λ e. cc) refl (λ e. cc) tea-IsSingle inputs (str "4011")
      (cons (str "0902") nil) codes mapped task

-- The chosen company, with a key that must not reach the trader's workflow.
abbrev ayla : Company
ayla = record { id = "c7"; name = "Ayla"; ou_handle = "ou7"; has_cha = true; document = "{…}" }

abbrev read_data : String → Option (Option Fields)
read_data s = some (some (field "tin_no" (str "99") (field "cms_key" (str "secret") end)))

abbrev read_config : String → Option (List String)
read_config s = some ("tin_no" ∷ [])

abbrev tables : Db
tables = record {
  cases = λ k.
      if k == "k1"
      then some (record { state = in_progress; name = none; attributes = end })
      else none;
  flows = [];
  parties = λ k r. none;
}

abbrev desk : Desk
desk = record {
  companies = λ k. if k == "c7" then some ayla else none;
  consignments = λ k. if k == "k1" then some (record { cha_company_id = none }) else none;
  session = calm tables;
}

abbrev chosen : Fields
chosen = field "cha_company_id" (str "c7") end

abbrev cha_done : Task
cha_done = with_cha (seed ayla (field "tin_no" (str "99") end)) task

recorded : (execute read_config read_data "{…}" chosen (some task) desk).0 ≡ ok cha_done
unfolding execute with_cha checked_fields
recorded = refl

execute-IsRecorded_example :
    IsRecorded read_config read_data "{…}" chosen task desk cha_done
      (execute read_config read_data "{…}" chosen (some task) desk).1
execute-IsRecorded_example =
    execute-IsRecorded read_config read_data "{…}" chosen task desk cha_done recorded

-- The third statement, on the consignment, fails.
abbrev failing : Desk
failing = record desk { session = record desk.session { faults = false ∷ false ∷ true ∷ [] } }

stopped :
    (execute read_config read_data "{…}" chosen (some task) failing).0 ≡ retryable consignment_query
unfolding execute with_cha checked_fields
stopped = refl

execute_atomic_example :
    ((done : Task) × ((execute read_config read_data "{…}" chosen (some task) failing).0 ≡ ok done))
    ⊎ SameTables (execute read_config read_data "{…}" chosen (some task) failing).1 failing
execute_atomic_example = execute_atomic read_config read_data "{…}" chosen (some task) failing
