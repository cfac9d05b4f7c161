-- ===== src/Filetoken.antt =====
-- internal/storage/filetoken: grants sealed into opaque tokens, and the keys that seal them
-- (codec.go and keyset.go).
pub mod Keys
pub mod Sealing
mod Examples
use Prim.Native.String.{len}
use nsw_srilanka.Common.{
  ℕ, ◌+◌, ◌*◌, ◌/◌, String, ◌==◌, ◌≡◌, Bool, true, false, ◌&&◌, ◌||◌, not, Option, none, some, List,
  [], ◌∷◌, Dict, lookup, contains, ltb, leb, eqb, if◌then◌else◌,
}

-- Keyset; a key is the list of its bytes.
abbrev pub Key : Type 0
Key = List ℕ

pub record Keyset : Type 0 where
  pub current : String
  pub keys : Dict Key

-- Grant
pub record Grant : Type 0 where
  pub resource : String
  pub holder : String
  pub scopes : List String

-- payload, the plaintext of a token, in Unix seconds; an expiry of 0 is left out and reads as 0.
pub record Payload : Type 0 where
  pub grant : Grant
  pub issued_at : ℕ
  pub expires : ℕ

-- Claims; no expiry for a token that never expires.
pub record Claims : Type 0 where
  pub grant : Grant
  pub issued_at : ℕ
  pub expires : Option ℕ

-- A parsed token, and its decryption, `none` where the key does not open it or the plaintext is no
-- payload.
pub record Jwe : Type 0 where
  pub typ : String
  pub key_id : String
  pub decrypt : Key → Option Payload

-- go-jose, for "dir" and A256GCM: encryption under a key and its id with a "typ", which may fail, and
-- parsing. What encryption gives is parsed as it was made, and opened by its key.
pub record Jose : Type 0 where
  pub encrypt : Key → String → String → Payload → Option String
  pub parse : String → Option Jwe
  pub opens :
      (k : Key) (kid typ : String) (p : Payload) (token : String)
      → encrypt k kid typ p ≡ some token
      → (j : Jwe) × (parse token ≡ some j)
        × (j.typ ≡ typ)
        × (j.key_id ≡ kid)
        × (j.decrypt k ≡ some p)

abbrev pub token_type : String
token_type = "nsw-file+jwe"

abbrev pub max_token_length : ℕ
max_token_length = 2048

-- A time.Duration.
pub data Duration : Type 0 where
  lasting : ℕ → Duration
  negative : ℕ → Duration

-- Nanoseconds to Unix seconds, for times after 1970.
abbrev pub unix : ℕ → ℕ
unix t = t / 1000000000

abbrev pub is_empty : List String → Bool
is_empty [] = true
is_empty (x ∷ xs) = false

-- validScopes
abbrev pub valid_scopes : List String → Bool
valid_scopes scopes = not (is_empty scopes) && not (contains scopes "")

-- How Seal and Open fail.
pub data SealError : Type 0 where
  incomplete bad_scopes negative_lifetime encryption too_long : SealError

pub data Sealed : Type 0 where
  sealed : String → Sealed
  seal_error : SealError → Sealed

pub data Opened : Type 0 where
  opened expired : Claims → Opened
  invalid : Opened

abbrev pub payload_at : Grant → ℕ → ℕ → Payload
payload_at g lifetime now = record {
  grant = g;
  issued_at = unix now;
  expires = if ltb 0 lifetime then unix (now + lifetime) else 0;
}

abbrev pub measured : Option String → Sealed
measured none = seal_error encryption
measured (some token) =
    if ltb max_token_length (len token) then seal_error too_long else sealed token

abbrev pub encrypt_with : Jose → String → Payload → Option Key → Sealed
encrypt_with jose kid p none = seal_error encryption
encrypt_with jose kid p (some key) = measured (jose.encrypt key kid token_type p)

-- Claims as Open reads them, checked against the clock.
abbrev pub claims_of : Payload → Claims
claims_of p = record {
  grant = p.grant;
  issued_at = p.issued_at;
  expires = if eqb p.expires 0 then none else some p.expires;
}

abbrev pub is_complete : Payload → Bool
is_complete p =
    not (p.grant.resource == "") && not (p.grant.holder == "") && not (contains p.grant.scopes "")

abbrev pub dated : Payload → ℕ → Opened
dated p now =
    if not (eqb p.expires 0) && leb (p.expires * 1000000000) now
    then expired (claims_of p)
    else opened (claims_of p)

abbrev pub read_payload : Option Payload → ℕ → Opened
read_payload none now = invalid
read_payload (some p) now = if is_complete p then dated p now else invalid

abbrev pub open_with : Jwe → Option Key → ℕ → Opened
open_with j none now = invalid
open_with j (some key) now = read_payload (j.decrypt key) now

abbrev pub open_parsed : Keyset → Option Jwe → ℕ → Opened
open_parsed ks none now = invalid
open_parsed ks (some j) now =
    if j.typ == token_type then open_with j (lookup j.key_id ks.keys) now else invalid

module _ (jose : Jose) (ks : Keyset) where
  -- Seal, at a time in nanoseconds
  unfoldable pub seal : Grant → Duration → ℕ → Sealed
  unfolding lookup
  seal g (negative d) now =
      if (g.resource == "") || (g.holder == "")
      then seal_error incomplete
      else if not (valid_scopes g.scopes)
      then seal_error bad_scopes
      else seal_error negative_lifetime
  seal g (lasting d) now =
      if (g.resource == "") || (g.holder == "")
      then seal_error incomplete
      else if not (valid_scopes g.scopes)
      then seal_error bad_scopes
      else encrypt_with jose ks.current (payload_at g d now) (lookup ks.current ks.keys)

  -- Open, at a time in nanoseconds
  unfoldable pub open_token : String → ℕ → Opened
  unfolding lookup
  open_token token now =
      if ltb max_token_length (len token) then invalid else open_parsed ks (jose.parse token) now
