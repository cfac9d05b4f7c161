-- ===== src/Filetoken/Keys/Rotation.antt =====
-- A new key in front of a keyset keeps the old tokens usable: filetoken/keyset.go with codec.go.
use Prim.Native.String.append
use Prim.Native.String.{◌++◌}
use nsw_srilanka.Common.{
  ℕ, ◌≤◌, String, ◌==◌, Bool, true, false, ◌&&◌, Option, none, some, List, [], ◌∷◌, Dict, lookup,
  insert, lookup-insert, length, is_some, eqb, is_blank, trim_space, has_char, ◌≡◌, refl, sym, ap,
  ◌∙◌, subst, Bool-cases, ltb, leb, if◌then◌else◌, inl, inr, ◌⊎◌,
}
use nsw_srilanka.Common.Trim.{split, split-append}
use nsw_srilanka.Filetoken.{
  Key, Keyset, Grant, Jose, lasting, sealed, seal, opened, expired, open_token,
}
use nsw_srilanka.Filetoken.Sealing.{usable_until, told, seal_key, open-seal}
use nsw_srilanka.Filetoken.Keys.{
  key_size, cut_colon, is_kid, KeysetError, no_entries, ParsedKeyset, parsed, keyset_error,
  with_key, keys_of, ended, read_key, read_entry, read_entries, parse_keyset,
}

-- Every key of the first set is the second's, under the same id.
abbrev IsWithin : Dict Key → Dict Key → Type 0
IsWithin a b = (kid : String) (key : Key) → lookup kid a ≡ some key → lookup kid b ≡ some key

insert-IsWithin :
    (kid : String) (key : Key) (a b : Dict Key)
    → IsWithin a b
    → IsWithin (insert kid key a) (insert kid key b)
insert-IsWithin kid key a b h k v e =
    lookup-insert kid k key b ∙ go (kid == k) (sym (lookup-insert kid k key a) ∙ e)
  where
    go :
        (t : Bool)
        → (if t then some key else lookup k a) ≡ some v
        → (if t then some key else lookup k b) ≡ some v
    go true x = x
    go false x = h k v x

with_key-IsWithin :
    (a b : Option Keyset) (k : String) (key : Key)
    → IsWithin (keys_of a) (keys_of b)
    → IsWithin (with_key a k key).keys (with_key b k key).keys
with_key-IsWithin none none k key m = insert-IsWithin k key [] [] m
with_key-IsWithin none (some y) k key m = insert-IsWithin k key [] y.keys m
with_key-IsWithin (some x) none k key m = insert-IsWithin k key x.keys [] m
with_key-IsWithin (some x) (some y) k key m = insert-IsWithin k key x.keys y.keys m

module _ (decode : String → Option Key) where
  key_alone :
      (a b : Dict Key) (kid encoded : String) (o : Option Key) (x y : String × Key)
      → read_key decode a kid encoded o ≡ inr x
      → read_key decode b kid encoded o ≡ inr y
      → x ≡ y
  unfolding read_key
  key_alone a b kid encoded none x y p q = absurd (cc)
  key_alone a b kid encoded (some key) x y p q = elim (Bool-cases (eqb (length key) key_size)) [
    | inl t ↦ let p' = rw t at p in let q' = rw t at q in cc
    | inr n ↦ absurd (let p' = rw n at p in cc)
  ]

  -- What an entry gives does not depend on the keys before it.
  entry_alone :
      (a b : Dict Key) (c : Option (String × String)) (x y : String × Key)
      → read_entry decode a c ≡ inr x
      → read_entry decode b c ≡ inr y
      → x ≡ y
  unfolding read_entry
  entry_alone a b none x y p q = absurd (cc)
  entry_alone a b (some (kid, encoded)) x y p q = elim (Bool-cases (is_kid kid)) [
    | inr n ↦ absurd (let p' = rw n at p in cc)
    | inl t ↦ elim (Bool-cases (is_some (lookup kid a))) [
      | inl u ↦ absurd (let p' = rw (t, u) at p in cc)
      | inr u ↦ elim (Bool-cases (is_some (lookup kid b))) [
        | inl v ↦ absurd (let q' = rw (t, v) at q in cc)
        | inr v ↦ key_alone a b kid encoded (decode encoded) x y (rw (t, u) at p) (rw (t, v) at q)
      ]
    ]
  ]

  -- The step of the loop, with the answer of its entry.
  after : List String → Option Keyset → KeysetError ⊎ (String × Key) → ParsedKeyset
  after es ks (inl error) = keyset_error error
  after es ks (inr (kid, key)) = read_entries decode es (some (with_key ks kid key))

  read_step :
      (e : String) (es : List String) (ks : Option Keyset)
      → read_entries decode (e ∷ es) ks
        ≡ after es ks (read_entry decode (keys_of ks) (cut_colon (trim_space e)))
  unfolding read_entries after
  read_step e es ks = split_on (read_entry decode (keys_of ks) (cut_colon (trim_space e)))
    where
      split_on :
          (r : KeysetError ⊎ (String × Key))
          → (elim r [
            | inl error ↦ keyset_error error
            | inr (kid, key) ↦ read_entries decode es (some (with_key ks kid key))
          ])
            ≡ after es ks r
      split_on (inl error) = refl
      split_on (inr (kid, key)) = refl

  read_entries-IsWithin :
      (es : List String) (ks ks' : Option Keyset) (r r' : Keyset)
      → IsWithin (keys_of ks) (keys_of ks')
      → read_entries decode es ks ≡ parsed r
      → read_entries decode es ks' ≡ parsed r'
      → IsWithin r.keys r'.keys
  read_entries-IsWithin [] ks ks' r r' h p q =
      at_end ks ks' h (unfold read_entries in p) (unfold read_entries in q)
    where
      at_end :
          (a b : Option Keyset)
          → IsWithin (keys_of a) (keys_of b)
          → ended a ≡ parsed r
          → ended b ≡ parsed r'
          → IsWithin r.keys r'.keys
      at_end none b k u v = absurd (cc)
      at_end (some x) none k u v = absurd (cc)
      at_end (some x) (some y) k u v =
          let e : x ≡ r = cc in
          let f : y ≡ r' = cc in
          subst (λ z. IsWithin r.keys z.keys) f (subst (λ z. IsWithin z.keys y.keys) e k)
  read_entries-IsWithin (e ∷ es) ks ks' r r' h p q =
      let c = cut_colon (trim_space e) in
      go (read_entry decode (keys_of ks) c) (read_entry decode (keys_of ks') c) refl refl
        (sym (read_step e es ks) ∙ p) (sym (read_step e es ks') ∙ q)
        (λ s s' m u v. read_entries-IsWithin es s s' r r' m u v)
    where
      go :
          (x y : KeysetError ⊎ (String × Key))
          → read_entry decode (keys_of ks) (cut_colon (trim_space e)) ≡ x
          → read_entry decode (keys_of ks') (cut_colon (trim_space e)) ≡ y
          → after es ks x ≡ parsed r
          → after es ks' y ≡ parsed r'
          → ((s s' : Option Keyset)
              → IsWithin (keys_of s) (keys_of s')
              → read_entries decode es s ≡ parsed r
              → read_entries decode es s' ≡ parsed r'
              → IsWithin r.keys r'.keys)
          → IsWithin r.keys r'.keys
      go (inl a) y u v s t ih = unfold after in absurd (cc)
      go (inr a) (inl b) u v s t ih = unfold after in absurd (cc)
      go (inr (k, key)) (inr (j, other)) u v s t ih =
          let same =
            entry_alone (keys_of ks) (keys_of ks') (cut_colon (trim_space e)) (k, key) (j, other) u
              v in
          let s' : read_entries decode es (some (with_key ks k key)) ≡ parsed r =
            unfold after in s in
          let t' : read_entries decode es (some (with_key ks' j other)) ≡ parsed r' =
            unfold after in t in
          ih (some (with_key ks k key)) (some (with_key ks' k key))
            (with_key-IsWithin ks ks' k key h) s'
            (subst
              (λ (z : String × Key).
                read_entries decode es (some (with_key ks' z.0 z.1)) ≡ parsed r')
              (sym same) t')

  not_blank :
      (value : String) (ks : Keyset)
      → parse_keyset decode value ≡ parsed ks
      → read_entries decode (split b',' value) none ≡ parsed ks
  unfolding parse_keyset
  not_blank value ks h = go (is_blank value) (read_entries decode (split b',' value) none) h
    where
      go :
          (b : Bool) (r : ParsedKeyset)
          → (if b then keyset_error no_entries else r) ≡ parsed ks
          → r ≡ parsed ks
      go true r k = absurd (cc)
      go false r k = k

  split_entry :
      (entry value : String)
      → has_char entry b',' ≡ false
      → split b',' (entry ++ ("," ++ value)) ≡ entry ∷ split b',' value
  split_entry entry value h =
      let e : "," ++ value ≡ String.◌∷◌ "," value =
        append.cons "," "" value ∙ ap (String.◌∷◌ ",") (append.nil value) in
      rw e (split-append b',' "," entry value refl h)

  -- A rotation puts an entry in front of a configured keyset. What the old keyset has sealed, the
  -- new one opens as the old one did: every key is kept under its id.
  pub rotated :
      (entry value : String) (old new : Keyset)
      → has_char entry b',' ≡ false
      → parse_keyset decode value ≡ parsed old
      → parse_keyset decode (entry ++ ("," ++ value)) ≡ parsed new
      → (kid : String) (key : Key) → lookup kid old.keys ≡ some key
      → lookup kid new.keys ≡ some key
  rotated entry value old new h p q =
      let q' =
        subst (λ es. read_entries decode es none ≡ parsed new) (split_entry entry value h)
          (not_blank (entry ++ ("," ++ value)) new q) in
      go (read_entry decode [] (cut_colon (trim_space entry)))
        (sym (read_step entry (split b',' value) none) ∙ q')
    where
      go :
          (x : KeysetError ⊎ (String × Key))
          → after (split b',' value) none x ≡ parsed new
          → (kid : String) (key : Key) → lookup kid old.keys ≡ some key
          → lookup kid new.keys ≡ some key
      go (inl e) t = unfold after in absurd (cc)
      go (inr (k, fresh)) t =
          read_entries-IsWithin (split b',' value) none (some (with_key none k fresh)) old new
            (λ kid key e. absurd (unfold lookup in cc)) (not_blank value old p) (unfold after in t)

  -- A token that was sealed before a key rotation, which puts a new entry in front of the keyset,
  -- is opened after it as if there had been none: it tells its grant and when it was sealed, and
  -- has expired exactly when it was given a lifetime and the second has come that it ends in.
  pub open-seal-rotated :
      (jose : Jose) (entry value : String) (old new : Keyset) (g : Grant) (lifetime now at : ℕ)
      (token : String)
      → has_char entry b',' ≡ false
      → parse_keyset decode value ≡ parsed old
      → parse_keyset decode (entry ++ ("," ++ value)) ≡ parsed new
      → seal jose old g (lasting lifetime) now ≡ sealed token
      → 1000000000 ≤ now
      → open_token jose new token at ≡ (
          if ltb 0 lifetime && leb (usable_until now lifetime) at
          then expired (told g lifetime now)
          else opened (told g lifetime now))
  open-seal-rotated jose entry value old new g lifetime now at token h p q s epoch =
      let (key, k) = seal_key jose old g lifetime now token s in
      let kept = rotated entry value old new h p q old.current key k in
      open-seal jose old new g lifetime now at token s (kept ∙ sym k) epoch
