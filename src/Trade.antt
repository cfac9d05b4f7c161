-- ===== src/Trade.antt =====
-- internal/trade: the system tasks of a consignment's workflow.
pub mod Split
pub mod Cha
mod Examples
use nsw_srilanka.Common.{String, Option, none, some}
use nsw_srilanka.Common.Value.{Fields, end}

-- The task record of a plugin's context, as much of it as the plugins use; a record's data may be a
-- nil map.
pub record Task : Type 0 where
  pub case_id : String
  pub fields : Option Fields

-- What a plugin writes into: an empty map for a nil one.
abbrev pub data_of : Task → Fields
data_of t = elim t.fields [ none ↦ end | some m ↦ m ]
