-- ===== src/Common/Value.antt =====
-- Go's `any` as the code holds it: decoded JSON, or a value that encoding/json refuses.
use Prim.Native.String.{String}
use mathlib.Core.Path.{◌≡◌, refl}
use mathlib.Core.Bool.{Bool, true, false, ◌&&◌}
use mathlib.Core.Option.{Option, none, some}
use native.Mathlib.Omega.{arith}
use text.Mathlib.Text.{◌==◌}
use text.Mathlib.TextEquality.{eq_iff}
use nsw_srilanka.Common.Tests.{if◌then◌else◌}

mutual
  -- A number is kept as the text that encoding/json writes for it. `opaque` is a value
  -- that has no JSON form, such as a function.
  pub data Value : Type 0 where
    null : Value
    bool : Bool → Value
    num : String → Value
    str : String → Value
    arr : Items → Value
    obj : Fields → Value
    opaque : Value

  pub data Items : Type 0 where
    nil : Items
    cons : Value → Items → Items

  -- map[string]any
  pub data Fields : Type 0 where
    end : Fields
    field : String → Value → Fields → Fields

-- Whether json.Marshal encodes the value.
unfoldable mutual
  pub encodable : Value → Bool
  encodable null = true
  encodable (bool b) = true
  encodable (num n) = true
  encodable (str s) = true
  encodable (arr xs) = encodable_items xs
  encodable (obj fs) = encodable_fields fs
  encodable opaque = false

  pub encodable_items : Items → Bool
  encodable_items nil = true
  encodable_items (cons v vs) = encodable v && encodable_items vs

  pub encodable_fields : Fields → Bool
  encodable_fields end = true
  encodable_fields (field k v fs) = encodable v && encodable_fields fs

-- m[k]
unfoldable pub field_at : String → Fields → Option Value
field_at k end = none
field_at k (field j v fs) = if j == k then some v else field_at k fs

-- m[k] = v
unfoldable pub set_field : String → Value → Fields → Fields
set_field k v end = field k v end
set_field k v (field j w fs) = if j == k then field k v fs else field j w (set_field k v fs)

pub field_at-set_field :
    (k j : String) (v : Value) (fs : Fields)
    → field_at j (set_field k v fs) ≡ (if k == j then some v else field_at j fs)
unfolding field_at set_field
field_at-set_field k j v end = refl
field_at-set_field k j v (field i w fs) =
    ground (arith, eq_iff k j, eq_iff i k, eq_iff i j, field_at-set_field k j v fs)

-- The jsonb operator ||: the right object's keys replace the left one's.
unfoldable pub merge : Fields → Fields → Fields
merge old end = old
merge old (field k v new) = set_field k v (merge old new)

pub field_at-merge :
    (j : String) (old new : Fields)
    → field_at j (merge old new) ≡ elim (field_at j new) [ none ↦ field_at j old | some v ↦ some v ]
unfolding merge field_at
field_at-merge j old end = refl
field_at-merge j old (field k v new) =
    ground (arith, field_at-set_field k j v (merge old new), field_at-merge j old new)
