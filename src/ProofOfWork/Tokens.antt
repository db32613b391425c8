-- ===== src/ProofOfWork/Tokens.antt =====
-- JSON web tokens and hashes: what src/core/ProofOfWork.go and ReuseTokens.go take from the jwt
-- library and from crypto/sha256, and the verification of a token in ProofOfWork.go.
use stealthpipe_relay.Prelude.{
  ℕ, ◌*◌, ◌<◌, Bool, true, Option, none, some, List, [], Text, if◌then◌else◌, ◌≡◌,
}
use stealthpipe_relay.Types.{second}

-- The claims of a token. A Go struct reads a claim that is missing as its zero value.
pub record Payload : Type 0 where
  pub salt : Option Text
  pub diff : Option ℕ
  pub code : Option Text
  pub exp : Option ℕ

abbrev pub or_empty : Option Text → Text
or_empty none = []
or_empty (some t) = t

abbrev pub or_zero : Option ℕ → ℕ
or_zero none = 0
or_zero (some n) = n

-- `claims.Salt`, `claims.Diff` and `claims.Code`
abbrev pub salt_of : Payload → Text
salt_of p = or_empty p.salt

abbrev pub diff_of : Payload → ℕ
diff_of p = or_zero p.diff

abbrev pub code_of : Payload → Text
code_of p = or_empty p.code

-- The signing method that a token's header names: one of the HMAC family, or another.
pub data Method : Type 0 where
  hmac : Method
  other : Text → Method

-- `sign` signs claims with HS256. `method_of` is the method in a token's header, if that can be read.
-- `parse_with_claims key now token` is `jwt.ParseWithClaims` at the instant `now`, with the function
-- that gives the key for a method: the claims and `token.Valid`, or an error. Hashes are bytes.
pub record Crypto : Type 0 where
  pub sha256 : Text → List ℕ
  pub sign : Text → Payload → Text
  pub method_of : Text → Option Method
  pub parse_with_claims : (Method → Option Text) → ℕ → Text → Option (Payload × Bool)

-- What the library documents of the tokens that it parses: their claims are written in them, an
-- expiry in seconds lies ahead, and the function that gives the key can refuse their method.
pub record IsJwt (lib : Crypto) : Type 0 where
  pub same_claims :
      (key : Method → Option Text) (token : Text) (now later : ℕ) (p q : Payload) (v w : Bool)
      → lib.parse_with_claims key now token ≡ some (p, v)
      → lib.parse_with_claims key later token ≡ some (q, w)
      → p ≡ q
  pub unexpired :
      (key : Method → Option Text) (token : Text) (now e : ℕ) (p : Payload) (v : Bool)
      → lib.parse_with_claims key now token ≡ some (p, v)
      → p.exp ≡ some e
      → now < e * second
  pub asks_key :
      (key : Method → Option Text) (token : Text) (now : ℕ) (m : Method)
      → lib.method_of token ≡ some m
      → key m ≡ none
      → lib.parse_with_claims key now token ≡ none

-- The library accepts what it signed until the expiry, with the same key, and gives the claims back.
abbrev pub ReadsBack : Crypto → Text → Payload → Type 0
ReadsBack lib secret p =
    (key : Method → Option Text) (now e : ℕ)
    → key hmac ≡ some secret
    → p.exp ≡ some e
    → now < e * second
    → lib.parse_with_claims key now (lib.sign secret p) ≡ some (p, true)

-- The function that both parts of the relay give to the library: a key for the HMAC family only.
abbrev pub key_for : Text → Method → Option Text
key_for secret hmac = some secret
key_for secret (other name) = none

-- The claims of a token that is valid.
abbrev pub valid_claims : Option (Payload × Bool) → Option Payload
valid_claims none = none
valid_claims (some (p, valid)) = if valid then some p else none

-- `verifyAndGetPayload`; `none` is its error.
unfoldable pub verify_and_get_payload : Crypto → Text → ℕ → Text → Option Payload
verify_and_get_payload lib secret now token =
    valid_claims (lib.parse_with_claims (key_for secret) now token)
