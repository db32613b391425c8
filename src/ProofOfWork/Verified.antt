-- ===== src/ProofOfWork/Verified.antt =====
-- What `verifyAndGetPayload` makes of the tokens that the jwt library parses.
use stealthpipe_relay.Prelude.{ℕ, ◌*◌, ◌<◌, Bool, true, false, Option, none, some, Text, ◌≡◌, refl}
use stealthpipe_relay.Types.{second}
use stealthpipe_relay.ProofOfWork.Tokens.{
  Payload, Crypto, IsJwt, ReadsBack, other, key_for, valid_claims, verify_and_get_payload,
}

valid_claims-some :
    (o : Option (Payload × Bool)) (p : Payload) → valid_claims o ≡ some p → o ≡ some (p, true)
valid_claims-some none p h = absurd (cc h)
valid_claims-some (some (q, true)) p h = cc
valid_claims-some (some (q, false)) p h = absurd (cc h)

module _ (lib : Crypto) (secret : Text) where
  -- A verified token was parsed and found valid.
  parsed_of_verified :
      (now : ℕ) (token : Text) (p : Payload)
      → verify_and_get_payload lib secret now token ≡ some p
      → lib.parse_with_claims (key_for secret) now token ≡ some (p, true)
  unfolding verify_and_get_payload
  parsed_of_verified now token p h = valid_claims-some _ p h

  pub verified-same_claims :
      (token : Text) (now later : ℕ) (p q : Payload)
      → IsJwt lib
      → verify_and_get_payload lib secret now token ≡ some p
      → verify_and_get_payload lib secret later token ≡ some q
      → p ≡ q
  verified-same_claims token now later p q jwt h k =
      jwt.same_claims (key_for secret) token now later p q true true
        (parsed_of_verified now token p h) (parsed_of_verified later token q k)

  pub verified-unexpired :
      (token : Text) (now e : ℕ) (p : Payload)
      → IsJwt lib
      → verify_and_get_payload lib secret now token ≡ some p
      → p.exp ≡ some e
      → now < e * second
  verified-unexpired token now e p jwt h x =
      jwt.unexpired (key_for secret) token now e p true (parsed_of_verified now token p h) x

  pub verify_and_get_payload-sign :
      (now e : ℕ) (p : Payload)
      → ReadsBack lib secret p
      → p.exp ≡ some e
      → now < e * second
      → verify_and_get_payload lib secret now (lib.sign secret p) ≡ some p
  unfolding verify_and_get_payload
  verify_and_get_payload-sign now e p back x ahead =
      rw (back (key_for secret) now e refl x ahead) refl

  -- A token that is not signed by a method of the HMAC family is refused.
  pub verify_and_get_payload-other :
      (now : ℕ) (token name : Text)
      → IsJwt lib
      → lib.method_of token ≡ some (other name)
      → verify_and_get_payload lib secret now token ≡ none
  unfolding verify_and_get_payload
  verify_and_get_payload-other now token name jwt m =
      rw (jwt.asks_key (key_for secret) token now (other name) m refl) refl
