-- ===== src/ReuseTokens/Roles.antt =====
-- Both kinds of token are signed with one key. What each check makes of the other's tokens.
use stealthpipe_relay.Prelude.{
  ℕ, ◌+◌, ◌*◌, ◌<◌, true, false, none, some, List, [], ◌∷◌, Text, text_key, ◌≡◌, refl,
}
use stealthpipe_relay.Numbers.{ℤ}
use stealthpipe_relay.Dict.{lookup, insert}
use stealthpipe_relay.Types.{Server, unix, second}
use stealthpipe_relay.ProofOfWork.Tokens.{Crypto, IsJwt, ReadsBack, other, key_for}
use stealthpipe_relay.ProofOfWork.Verified.{
  verify_and_get_payload-sign, verify_and_get_payload-other,
}
use stealthpipe_relay.ProofOfWork.{
  is_proof_of_work_valid, pow_payload, has_work, generate_proof_of_work,
}
use stealthpipe_relay.ProofOfWork.SingleUse.{check-fresh}
use stealthpipe_relay.ReuseTokens.{
  reuse_payload, generate_reuse_token, is_reuse_token_valid, verify_and_get_payload_reuse_token,
}

has_work-zero : (hash : List ℕ) → has_work hash 0 ≡ true
unfolding has_work
has_work-zero [] = refl
has_work-zero (b ∷ hash) = refl

module _ (lib : Crypto) (secret : Text) where
  -- Until it expires, a reuse token gives back the code that it was made for.
  pub is_reuse_token_valid-generate :
      (app : Server) (code : Text) (now later : ℕ)
      → ReadsBack lib secret (reuse_payload app code now)
      → later < unix (now + 60 * 60 * second * app.config.reuse_token_expiry_hours) * second
      → is_reuse_token_valid lib secret (generate_reuse_token lib secret app code now) later ≡ code
  unfolding is_reuse_token_valid verify_and_get_payload_reuse_token generate_reuse_token
  is_reuse_token_valid-generate app code now later back early =
      rw (back (key_for secret) later _ refl refl early, is_reuse_token_valid) refl

  -- A proof-of-work token is no reuse token: no code comes out of it.
  pub is_reuse_token_valid-pow :
      (app : Server) (random now later : ℕ)
      → ReadsBack lib secret (pow_payload app random now)
      → later < unix (now + 60 * second * app.config.pow_token_expiry_minutes) * second
      → is_reuse_token_valid lib secret (generate_proof_of_work lib secret app random now).0 later
        ≡ []
  unfolding is_reuse_token_valid verify_and_get_payload_reuse_token generate_proof_of_work
  is_reuse_token_valid-pow app random now later back early =
      rw (back (key_for secret) later _ refl refl early, is_reuse_token_valid) refl

  -- A reuse token passes for a proof of work with any nonce and under any hash: it has no claim of
  -- a salt or a difficulty, so the salt is read as empty and the difficulty as 0. This holds while
  -- the token is alive and the empty salt is not on the list of used salts.
  pub reuse_token_is_work :
      (app app' : Server) (code : Text) (nonce : ℤ) (now later : ℕ)
      → ReadsBack lib secret (reuse_payload app code now)
      → later < unix (now + 60 * 60 * second * app.config.reuse_token_expiry_hours) * second
      → lookup [] app'.used_salts ≡ none
      → is_proof_of_work_valid lib secret app'
          (generate_reuse_token lib secret app code now)
          nonce
          later
        ≡ some (
          record app' {
            used_salts =
                insert []
                  (unix (now + 60 * 60 * second * app.config.reuse_token_expiry_hours))
                  app'.used_salts;
          },
          true,
        )
  unfolding generate_reuse_token
  reuse_token_is_work app app' code nonce now later back early fresh =
      rw
        (check-fresh lib secret app' (lib.sign secret (reuse_payload app code now)) nonce later
          (unix (now + 60 * 60 * second * app.config.reuse_token_expiry_hours))
          (reuse_payload app code now)
          (verify_and_get_payload-sign lib secret later _ (reuse_payload app code now) back refl
            early)
          refl fresh)
        (rw has_work-zero refl)

  verify_and_get_payload_reuse_token-other :
      (now : ℕ) (token name : Text)
      → IsJwt lib
      → lib.method_of token ≡ some (other name)
      → verify_and_get_payload_reuse_token lib secret now token ≡ none
  unfolding verify_and_get_payload_reuse_token
  verify_and_get_payload_reuse_token-other now token name jwt m =
      rw (jwt.asks_key (key_for secret) token now (other name) m refl) refl

  -- A token whose header names a signing method outside the HMAC family is refused by both checks: it
  -- is no proof of work for any nonce, takes no salt, and gives no room code.
  pub other_method_refused :
      (app : Server) (token name : Text) (nonce : ℤ) (now : ℕ)
      → IsJwt lib
      → lib.method_of token ≡ some (other name)
      → (is_proof_of_work_valid lib secret app token nonce now ≡ some (app, false))
        × (is_reuse_token_valid lib secret token now ≡ [])
  unfolding is_proof_of_work_valid is_reuse_token_valid
  other_method_refused app token name nonce now jwt m = (
    rw (verify_and_get_payload-other lib secret now token name jwt m, is_proof_of_work_valid) refl,
    rw (verify_and_get_payload_reuse_token-other now token name jwt m, is_reuse_token_valid) refl,
  )
