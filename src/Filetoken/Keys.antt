-- ===== src/Filetoken/Keys.antt =====
-- The keys of a deployment, as its configuration lists them: filetoken/keyset.go.
pub mod Rotation
use Prim.Native.Char.{Char, code}
use Prim.Native.Nat.{suc}
use nsw_srilanka.Common.{
  ℕ, String, ◌==◌, Bool, true, false, ◌&&◌, ◌||◌, not, Option, none, some, List, [], ◌∷◌, Dict,
  lookup, insert, length, is_some, ltb, leb, eqb, is_blank, trim_space, rune_count, if◌then◌else◌,
}
use nsw_srilanka.Common.Trim.{split}
use mathlib.Core.Logic.{◌⊎◌, inl, inr}
use nsw_srilanka.Filetoken.{Key, Keyset}

abbrev pub key_size : ℕ
key_size = 32

-- strings.Cut at a colon; `none` without one.
abbrev pub in_front : Char → Option (String × String) → Option (String × String)
in_front c none = none
in_front c (some (before, after)) = some (String.◌∷◌ c before, after)

unfoldable pub cut_colon : String → Option (String × String)
cut_colon String.[] = none
cut_colon (String.◌∷◌ c s) =
    let rest = cut_colon s in if eqb (code c) b':' then some ("", s) else in_front c rest

abbrev pub is_kid_char : ℕ → Bool
is_kid_char c = (leb b'a' c && leb c b'z') || (leb b'0' c && leb c b'9') || eqb c b'_' || eqb c b'-'

abbrev pub all_kid_chars : String → Bool
all_kid_chars String.[] = true
all_kid_chars (String.◌∷◌ c s) = is_kid_char (code c) && all_kid_chars s

-- kidPattern
abbrev pub is_kid : String → Bool
is_kid s = all_kid_chars s && leb 1 (rune_count s) && leb (rune_count s) 32

-- The errors of ParseKeyset.
pub data KeysetError : Type 0 where
  no_entries no_colon bad_kid duplicate_kid bad_base64 bad_size : KeysetError

pub data ParsedKeyset : Type 0 where
  parsed : Keyset → ParsedKeyset
  keyset_error : KeysetError → ParsedKeyset

-- The keyset of the entries so far; the first key is the current one.
abbrev pub with_key : Option Keyset → String → Key → Keyset
with_key none kid key = record { current = kid; keys = insert kid key [] }
with_key (some ks) kid key = record { current = ks.current; keys = insert kid key ks.keys }

abbrev pub keys_of : Option Keyset → Dict Key
keys_of none = []
keys_of (some ks) = ks.keys

abbrev pub ended : Option Keyset → ParsedKeyset
ended none = keyset_error no_entries
ended (some ks) = parsed ks

-- `decode` is base64.StdEncoding.DecodeString.
module _ (decode : String → Option Key) where
  -- The checks of one entry against the keys before it.
  unfoldable pub read_key : Dict Key → String → String → Option Key → KeysetError ⊎ (String × Key)
  unfolding lookup
  read_key keys kid encoded none = inl bad_base64
  read_key keys kid encoded (some key) =
      if eqb (length key) key_size then inr (kid, key) else inl bad_size

  unfoldable pub read_entry : Dict Key → Option (String × String) → KeysetError ⊎ (String × Key)
  unfolding read_key
  read_entry keys none = inl no_colon
  read_entry keys (some (kid, encoded)) =
      if not (is_kid kid)
      then inl bad_kid
      else if is_some (lookup kid keys)
      then inl duplicate_kid
      else read_key keys kid encoded (decode encoded)

  -- The loop, after the entries that gave the keyset.
  unfoldable pub read_entries : List String → Option Keyset → ParsedKeyset
  unfolding read_entry cut_colon trim_space insert
  read_entries [] ks = ended ks
  read_entries (e ∷ es) ks = elim (read_entry (keys_of ks) (cut_colon (trim_space e))) [
    | inl error ↦ keyset_error error
    | inr (kid, key) ↦ read_entries es (some (with_key ks kid key))
  ]

  -- ParseKeyset
  unfoldable pub parse_keyset : String → ParsedKeyset
  unfolding read_entries is_blank split
  parse_keyset value =
      if is_blank value then keyset_error no_entries else read_entries (split b',' value) none
