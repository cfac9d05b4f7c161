-- ===== src/Document/Examples.antt =====
-- Tests and instances for the display form of a reference.
use nsw_srilanka.Common.{◌≡◌, refl}
use nsw_srilanka.Document.{
  Reference, format_reference, parsed, unread, not_in_form, no_number, incomplete, parse_reference,
}
use nsw_srilanka.Document.Laws.{IsCanonical, parse_reference-format, parse_reference-IsCanonical}

abbrev export_entry : Reference
export_entry = record { year = "2026"; office = "CBEX1"; serial = "E"; number = 1207 }

display_form : format_reference export_entry ≡ "CBEX1/2026/E/1207"
unfolding format_reference
display_form = refl

spaced : parse_reference " CBEX1 /2026/ E/ +1207 " ≡ parsed export_entry
unfolding parse_reference
spaced = refl

short : parse_reference "CBEX1/2026/1207" ≡ unread not_in_form
unfolding parse_reference
short = refl

lettered : parse_reference "CBEX1/2026/E/12a" ≡ unread no_number
unfolding parse_reference
lettered = refl

negative : parse_reference "CBEX1/2026/E/-3" ≡ unread incomplete
unfolding parse_reference
negative = refl

too_large : parse_reference "CBEX1/2026/E/9223372036854775808" ≡ unread no_number
unfolding parse_reference
too_large = refl

export_entry-IsCanonical : IsCanonical export_entry
export_entry-IsCanonical =
    (parse_reference-IsCanonical " CBEX1 /2026/ E/ +1207 " export_entry spaced).0

parse_reference-format_example :
    parse_reference (format_reference export_entry) ≡ parsed export_entry
parse_reference-format_example = parse_reference-format export_entry export_entry-IsCanonical

parse_reference-IsCanonical_example :
    IsCanonical export_entry
    × (parse_reference (format_reference export_entry) ≡ parsed export_entry)
parse_reference-IsCanonical_example =
    parse_reference-IsCanonical " CBEX1 /2026/ E/ +1207 " export_entry spaced
