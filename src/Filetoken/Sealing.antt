-- ===== src/Filetoken/Sealing.antt =====
-- Open gives back what Seal sealed: filetoken/codec.go.
use Prim.Native.String.{len}
use nsw_srilanka.Common.{
  ℕ, ◌+◌, ◌*◌, ◌/◌, ◌≤◌, String, ◌==◌, eq_iff, true, false, ◌&&◌, ◌||◌, not, Option, none, some,
  lookup, ◌≡◌, refl, sym, ap, ◌∙◌, inl, inr, ltb, leb, eqb, Bool-cases, arith, if◌then◌else◌,
}
use nsw_srilanka.Filetoken.{
  incomplete, bad_scopes, Key, Keyset, Grant, Payload, Claims, Jose, token_type, max_token_length,
  lasting, unix, valid_scopes, sealed, seal_error, opened, expired, payload_at, measured,
  encrypt_with, is_complete, dated, seal, open_token,
}

-- When a token sealed for a lifetime stops being usable, in nanoseconds: at a whole second.
abbrev pub usable_until : ℕ → ℕ → ℕ
usable_until now lifetime = (now + lifetime) / 1000000000 * 1000000000

-- What the token of a grant tells, sealed at a time for a lifetime.
abbrev pub told : Grant → ℕ → ℕ → Claims
told g lifetime now = record {
  grant = g;
  issued_at = now / 1000000000;
  expires = if ltb 0 lifetime then some ((now + lifetime) / 1000000000) else none;
}

measured_sealed :
    (o : Option String) (token : String)
    → measured o ≡ sealed token
    → (o ≡ some token) × (ltb max_token_length (len token) ≡ false)
measured_sealed none token h = absurd (cc)
measured_sealed (some t) token h = elim (Bool-cases (ltb max_token_length (len t))) [
  | inl y ↦ absurd (let k = rw y at h in cc)
  | inr n ↦
      let same : sealed t ≡ sealed token = rw n at h in
      let e : t ≡ token = cc in
      (ap some e, ap (λ (x : String). ltb max_token_length (len x)) (sym e) ∙ n)
]

encrypted :
    (jose : Jose) (kid : String) (p : Payload) (o : Option Key) (token : String)
    → encrypt_with jose kid p o ≡ sealed token
    → (key : Key) × (o ≡ some key)
      × (jose.encrypt key kid token_type p ≡ some token)
      × (ltb max_token_length (len token) ≡ false)
encrypted jose kid p none token h = absurd (cc)
encrypted jose kid p (some key) token h =
    let (a, b) = measured_sealed (jose.encrypt key kid token_type p) token h in (key, refl, a, b)

-- What Seal has checked and done where it gives a token.
seal_sealed :
    (jose : Jose) (ks : Keyset) (g : Grant) (lifetime now : ℕ) (token : String)
    → seal jose ks g (lasting lifetime) now ≡ sealed token
    → (is_complete (payload_at g lifetime now) ≡ true)
      × (encrypt_with jose ks.current (payload_at g lifetime now) (lookup ks.current ks.keys)
          ≡ sealed token)
seal_sealed jose ks g lifetime now token h =
    elim (Bool-cases ((g.resource == "") || (g.holder == ""))) [
      | inl y ↦ absurd (let k = rw y at (opened_up h) in cc)
      | inr n ↦ elim (Bool-cases (not (valid_scopes g.scopes))) [
        | inl y ↦ absurd (let k = rw (n, y) at (opened_up h) in cc)
        | inr m ↦ (ground arith, rw (n, m) at (opened_up h))
      ]
    ]
  where
    opened_up :
        seal jose ks g (lasting lifetime) now ≡ sealed token
        → (if (g.resource == "") || (g.holder == "")
            then seal_error incomplete
            else if not (valid_scopes g.scopes)
            then seal_error bad_scopes
            else encrypt_with jose ks.current
                (payload_at g lifetime now)
                (lookup ks.current ks.keys))
          ≡ sealed token
    opened_up k = unfold seal in k

-- A keyset that seals has its current key.
pub seal_key :
    (jose : Jose) (ks : Keyset) (g : Grant) (lifetime now : ℕ) (token : String)
    → seal jose ks g (lasting lifetime) now ≡ sealed token
    → (key : Key) × (lookup ks.current ks.keys ≡ some key)
seal_key jose ks g lifetime now token h =
    let (_, e) = seal_sealed jose ks g lifetime now token h in
    let (key, k, _, _) =
      encrypted jose ks.current (payload_at g lifetime now) (lookup ks.current ks.keys) token e in
    (key, k)

-- A sealed token is opened with any keyset that has kept its key, whichever key that keyset seals
-- with: it tells its grant, and the second it was sealed in; it has expired exactly when it was
-- given a lifetime and that second has come in which the lifetime ends.
pub open-seal :
    (jose : Jose) (ks later : Keyset) (g : Grant) (lifetime now at : ℕ) (token : String)
    → seal jose ks g (lasting lifetime) now ≡ sealed token
    → lookup ks.current later.keys ≡ lookup ks.current ks.keys
    → 1000000000 ≤ now
    → open_token jose later token at ≡ (
        if ltb 0 lifetime && leb (usable_until now lifetime) at
        then expired (told g lifetime now)
        else opened (told g lifetime now))
open-seal jose ks later g lifetime now at token h kept epoch =
    let (whole, e) = seal_sealed jose ks g lifetime now token h in
    let (key, k, enc, short) =
      encrypted jose ks.current (payload_at g lifetime now) (lookup ks.current ks.keys) token e in
    let (j, parsed, typ, kid, plain) =
      jose.opens key ks.current token_type (payload_at g lifetime now) token enc in
    let t : (j.typ == token_type) ≡ true = (eq_iff j.typ token_type).1 typ in
    let l : lookup j.key_id later.keys ≡ some key =
      ap (λ (x : String). lookup x later.keys) kid ∙ kept ∙ k in
    unfold open_token in rw (short, parsed, t, l, plain, whole) late
  where
    late : dated (payload_at g lifetime now) at ≡ (
        if ltb 0 lifetime && leb (usable_until now lifetime) at
        then expired (told g lifetime now)
        else opened (told g lifetime now))
    late = elim (Bool-cases (ltb 0 lifetime)) [
      | inl y ↦ let z : eqb (unix (now + lifetime)) 0 ≡ false = ground arith in rw (y, z) refl
      | inr n ↦ rw n refl
    ]
