-- ===== src/Filetoken/Examples.antt =====
-- Tests and instances for file tokens.
use nsw_srilanka.Common.{
  ℕ, ◌==◌, String, Bool, true, false, ◌&&◌, Option, none, some, List, [], ◌∷◌, ◌≡◌, refl, ltb, leb,
  arith, eq_iff, eqb, sym, ap, inl, inr, ◌++◌, Bool-cases, if◌then◌else◌,
}
use nsw_srilanka.Filetoken.{
  Key, Keyset, Grant, Payload, Jwe, Jose, token_type, lasting, sealed, seal_error, bad_scopes,
  opened, expired, payload_at, seal, open_token,
}
use nsw_srilanka.Filetoken.Sealing.{usable_until, told}
use nsw_srilanka.Filetoken.Keys.{parsed, keyset_error, duplicate_kid, parse_keyset}
use nsw_srilanka.Filetoken.Keys.Rotation.{open-seal-rotated}

abbrev grant : Grant
grant = record { resource = "f1"; holder = "u1"; scopes = "read" ∷ [] }

-- The time of the sealing, in nanoseconds.
abbrev noon : ℕ
noon = 1700000000500000000

abbrev minute : ℕ
minute = 60000000000

abbrev plain : Payload
plain = payload_at grant minute noon

abbrev same_texts : List String → List String → Bool
same_texts [] [] = true
same_texts [] (y ∷ ys) = false
same_texts (x ∷ xs) [] = false
same_texts (x ∷ xs) (y ∷ ys) = (x == y) && same_texts xs ys

same_texts-eq : (xs ys : List String) → same_texts xs ys ≡ true → xs ≡ ys
same_texts-eq [] [] h = refl
same_texts-eq [] (y ∷ ys) h = absurd (cc)
same_texts-eq (x ∷ xs) [] h = absurd (cc)
same_texts-eq (x ∷ xs) (y ∷ ys) h =
    let (a, b) : ((x == y) ≡ true) × (same_texts xs ys ≡ true) = ground arith in
    let e = (eq_iff x y).0 a in let f = same_texts-eq xs ys b in λ i. e i ∷ f i

abbrev same_payload : Payload → Payload → Bool
same_payload p q =
    (p.grant.resource == q.grant.resource)
    && (p.grant.holder == q.grant.holder)
    && same_texts p.grant.scopes q.grant.scopes
    && eqb p.issued_at q.issued_at
    && eqb p.expires q.expires

same_payload-eq : (p q : Payload) → same_payload p q ≡ true → p ≡ q
same_payload-eq p q h =
    let (a, b, c, d, e) : ((p.grant.resource == q.grant.resource) ≡ true)
        × ((p.grant.holder == q.grant.holder) ≡ true)
        × (same_texts p.grant.scopes q.grant.scopes ≡ true)
        × (p.issued_at ≡ q.issued_at)
        × (p.expires ≡ q.expires) =
      ground arith in
    let r = (eq_iff p.grant.resource q.grant.resource).0 a in
    let s = (eq_iff p.grant.holder q.grant.holder).0 b in
    let t = same_texts-eq p.grant.scopes q.grant.scopes c in
    λ i. record {
      grant = record { resource = r i; holder = s i; scopes = t i };
      issued_at = d i;
      expires = e i;
    }

-- A cipher with one token: it seals this payload under the key id "a" and no other.
abbrev made : Jwe
made = record { typ = token_type; key_id = "a"; decrypt = λ k. some plain }

abbrev encrypt_one : Key → String → String → Payload → Option String
encrypt_one k kid typ p =
    if (kid == "a") && (typ == token_type) && same_payload p plain then some "t" else none

abbrev parse_one : String → Option Jwe
parse_one t = if t == "t" then some made else none

one_opens :
    (k : Key) (kid typ : String) (p : Payload) (token : String)
    → encrypt_one k kid typ p ≡ some token
    → (j : Jwe) × (parse_one token ≡ some j)
      × (j.typ ≡ typ)
      × (j.key_id ≡ kid)
      × (j.decrypt k ≡ some p)
one_opens k kid typ p token h =
    elim (Bool-cases ((kid == "a") && (typ == token_type) && same_payload p plain)) [
      | inr n ↦ absurd (let x = rw n at h in cc)
      | inl y ↦
          let (a, b, c) : ((kid == "a") ≡ true)
              × ((typ == token_type) ≡ true)
              × (same_payload p plain ≡ true) =
            ground arith in
          let t : "t" ≡ token = let x : some "t" ≡ some token = rw y at h in cc in
          (
            made,
            rw (← t),
            sym ((eq_iff typ token_type).0 b),
            sym ((eq_iff kid "a").0 a),
            ap some (sym (same_payload-eq p plain c)),
          )
    ]

abbrev one : Jose
one = record { encrypt = encrypt_one; parse = parse_one; opens = one_opens }

-- Keys of 32 bytes, and what is no base64.
abbrev bytes : List ℕ
bytes = 1 ∷ 2 ∷ 3 ∷ 4 ∷ 5 ∷ 6 ∷ 7 ∷ 8 ∷ []

abbrev key_of : ℕ → Key
key_of n = n ∷ n ∷ n ∷ n ∷ n ∷ n ∷ n ∷ n ∷ (bytes ++ (bytes ++ bytes))

abbrev decode : String → Option Key
decode s = if s == "AA" then some (key_of 1) else if s == "BB" then some (key_of 2) else none

abbrev old_keys : Keyset
old_keys = record { current = "a"; keys = ("a", key_of 1) ∷ [] }

abbrev new_keys : Keyset
new_keys = record { current = "b"; keys = ("b", key_of 2) ∷ ("a", key_of 1) ∷ [] }

configured : parse_keyset decode "a:AA" ≡ parsed old_keys
unfolding parse_keyset
configured = refl

rotated_in : parse_keyset decode "b:BB,a:AA" ≡ parsed new_keys
unfolding parse_keyset
rotated_in = refl

twice : parse_keyset decode "a:BB, a:AA" ≡ keyset_error duplicate_kid
unfolding parse_keyset
twice = refl

sealed_at_noon : seal one old_keys grant (lasting minute) noon ≡ sealed "t"
unfolding seal
sealed_at_noon = refl

no_scopes :
    seal one old_keys (record grant { scopes = [] }) (lasting 0) noon ≡ seal_error bad_scopes
unfolding seal
no_scopes = refl

-- The token stops being usable half a second before its minute is over.
over_early : open_token one new_keys "t" 1700000060000000000 ≡ expired (told grant minute noon)
unfolding open_token
over_early = refl

open-seal-rotated_example : open_token one new_keys "t" 1700000001000000000 ≡ (
    if ltb 0 minute && leb (usable_until noon minute) 1700000001000000000
    then expired (told grant minute noon)
    else opened (told grant minute noon))
open-seal-rotated_example =
    open-seal-rotated decode one "b:BB" "a:AA" old_keys new_keys grant minute noon
      1700000001000000000 "t" refl configured rotated_in sealed_at_noon (omega arith)
