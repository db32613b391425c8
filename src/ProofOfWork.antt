-- ===== src/ProofOfWork.antt =====
-- src/core/ProofOfWork.go: the proof-of-work tokens, their salts and their check.
pub mod Tokens
pub mod Verified
pub mod SingleUse
pub mod Ledger
pub mod Accept
pub mod Prefix
use stealthpipe_relay.Prelude.{
  ℕ, zero, suc, ◌+◌, ◌-◌, ◌*◌, ◌/◌, ◌%◌, ◌<◌, Bool, true, false, Option, none, some, List, [], ◌∷◌,
  ◌++◌, Text, codes, text_key, nat_beq, ltb, if◌then◌else◌, replicate, ◌&&◌,
}
use stealthpipe_relay.Numbers.{ℤ, print_nat, print_int}
use stealthpipe_relay.Dict.{Dict, lookup, insert}
use stealthpipe_relay.Types.{Server, ServerConfig, unix, unix_milli, second}
use Tokens.{Payload, Crypto, salt_of, diff_of, verify_and_get_payload}

-- `isReplay`: the salt is taken, whatever the rest of the check says.
unfoldable pub is_replay : Server → Text → ℕ → Server × Bool
is_replay app salt expiry = elim (lookup salt app.used_salts) [
  | some _ ↦ (app, true)
  | none ↦ (record app { used_salts = insert salt expiry app.used_salts }, false)
]

-- A round of `StartCleanupLoop`, over the map.
unfoldable pub expire_salts : ℕ → Dict Text ℕ → Dict Text ℕ
expire_salts now [] = []
expire_salts now ((salt, expiry) ∷ m) =
    if ltb expiry now then expire_salts now m else (salt, expiry) ∷ expire_salts now m

unfoldable pub clean_used_salts : Server → ℕ → Server
unfolding expire_salts
clean_used_salts app now = record app { used_salts = expire_salts (unix now) app.used_salts }

-- `hex.EncodeToString`
abbrev pub hex_digit : ℕ → ℕ
hex_digit d = if ltb d 10 then b'0' + d else b'a' + (d - 10)

unfoldable pub hex : List ℕ → Text
hex [] = []
hex (b ∷ bytes) = hex_digit (b / 16) ∷ hex_digit (b % 16) ∷ hex bytes

-- `strings.HasPrefix`
unfoldable pub has_prefix : Text → Text → Bool
has_prefix text [] = true
has_prefix [] (p ∷ prefix) = false
has_prefix (c ∷ text) (p ∷ prefix) = nat_beq c p && has_prefix text prefix

-- The test on the hash: `diff` hexadecimal zeros in front.
unfoldable pub has_work : List ℕ → ℕ → Bool
unfolding hex has_prefix
has_work hash diff = has_prefix (hex hash) (replicate diff b'0')

-- The claims that `GenerateProofOfWork` signs; `random` is the draw below 100000.
unfoldable pub pow_payload : Server → ℕ → ℕ → Payload
pow_payload app random now = record {
  salt = some (print_nat (unix_milli now) ++ codes "-" ++ print_nat random);
  diff = some app.current_difficulty;
  code = none;
  exp = some (unix (now + 60 * second * app.config.pow_token_expiry_minutes));
}

module _ (lib : Crypto) (secret : Text) where
  open lib use {sha256, sign}

  check_hash : Server × Bool → Text → ℕ → ℤ → Server × Bool
  unfolding has_work
  check_hash (app, true) salt diff nonce = (app, false)
  check_hash (app, false) salt diff nonce = (app, has_work (sha256 (salt ++ print_int nonce)) diff)

  -- The claims after the parse. `ExpiresAt` is a pointer: without the claim the handler panics.
  check_claims : Server → Payload → Option ℕ → ℤ → Option (Server × Bool)
  unfolding check_hash
  check_claims app claims none nonce = none
  check_claims app claims (some expiry) nonce =
      some
        (check_hash (is_replay app (salt_of claims) expiry) (salt_of claims) (diff_of claims) nonce)

  -- `IsProofOfWorkValid`; `none` is the panic.
  unfoldable pub is_proof_of_work_valid : Server → Text → ℤ → ℕ → Option (Server × Bool)
  unfolding check_claims
  is_proof_of_work_valid app token nonce now = elim (verify_and_get_payload lib secret now token) [
    | none ↦ some (app, false)
    | some claims ↦ check_claims app claims claims.exp nonce
  ]

  unfoldable pub generate_proof_of_work : Server → ℕ → ℕ → Text × Text
  unfolding pow_payload
  generate_proof_of_work app random now =
      let payload = pow_payload app random now in (sign secret payload, salt_of payload)
