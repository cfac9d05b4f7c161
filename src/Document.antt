-- ===== src/Document.antt =====
-- external-integration/customs/asycuda/document: the registered reference of a document, its display
-- form, and the readers of the JSON that the forms and answers arrive as.
pub mod Laws
mod Examples
use Prim.Native.String.{◌++◌}
use nsw_srilanka.Common.{
  ℕ, String, ◌==◌, Bool, ◌&&◌, not, Option, none, some, List, [], ◌∷◌, ltb, trim_space,
  if◌then◌else◌,
}
use nsw_srilanka.Common.Decimal.{decimal, atoi}
use nsw_srilanka.Common.Trim.{split}

-- Reference; a number that is not positive is 0.
pub record Reference : Type 0 where
  pub year : String
  pub office : String
  pub serial : String
  pub number : ℕ

-- IsValid
abbrev pub is_valid : Reference → Bool
is_valid r = not (r.year == "") && not (r.office == "") && not (r.serial == "") && ltb 0 r.number

-- String
unfoldable pub format_reference : Reference → String
unfolding decimal
format_reference r =
    r.office ++ ("/" ++ (r.year ++ ("/" ++ (r.serial ++ ("/" ++ decimal r.number)))))

-- The errors of ParseReference.
pub data Unread : Type 0 where
  not_in_form no_number incomplete : Unread

pub data Parsed : Type 0 where
  parsed : Reference → Parsed
  unread : Unread → Parsed

abbrev pub checked : Reference → Parsed
checked r = if is_valid r then parsed r else unread incomplete

abbrev pub trimmed : String → String → String → ℕ → Reference
trimmed office year serial n = record {
  year = trim_space year;
  office = trim_space office;
  serial = trim_space serial;
  number = n;
}

abbrev pub numbered : String → String → String → Option ℕ → Parsed
numbered office year serial none = unread no_number
numbered office year serial (some n) = checked (trimmed office year serial n)

unfoldable pub read_parts : List String → Parsed
unfolding atoi
read_parts (a ∷ b ∷ c ∷ d ∷ []) = numbered a b c (atoi (trim_space d))
read_parts _ = unread not_in_form

-- ParseReference
unfoldable pub parse_reference : String → Parsed
unfolding read_parts split trim_space
parse_reference s = read_parts (split b'/' (trim_space s))
