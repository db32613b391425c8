-- ===== src/ReuseTokens.antt =====
-- src/core/ReuseTokens.go: the tokens by which a host comes back to its room code.
pub mod Roles
use stealthpipe_relay.Prelude.{ℕ, ◌+◌, ◌*◌, Option, none, some, [], Text}
use stealthpipe_relay.Types.{Server, unix, second}
use stealthpipe_relay.ProofOfWork.Tokens.{Payload, Crypto, code_of, key_for, valid_claims}

unfoldable pub reuse_payload : Server → Text → ℕ → Payload
reuse_payload app code now = record {
  salt = none;
  diff = none;
  code = some code;
  exp = some (unix (now + 60 * 60 * second * app.config.reuse_token_expiry_hours));
}

-- `verifyAndGetPayloadReuseToken`, which is written as the one for proofs of work is.
unfoldable pub verify_and_get_payload_reuse_token : Crypto → Text → ℕ → Text → Option Payload
verify_and_get_payload_reuse_token lib secret now token =
    valid_claims (lib.parse_with_claims (key_for secret) now token)

module _ (lib : Crypto) (secret : Text) where
  unfoldable pub generate_reuse_token : Server → Text → ℕ → Text
  unfolding reuse_payload
  generate_reuse_token app code now = lib.sign secret (reuse_payload app code now)

  -- The code in the token, or the empty text.
  unfoldable pub is_reuse_token_valid : Text → ℕ → Text
  is_reuse_token_valid token now = elim (verify_and_get_payload_reuse_token lib secret now token) [
    | none ↦ []
    | some claims ↦ code_of claims
  ]
