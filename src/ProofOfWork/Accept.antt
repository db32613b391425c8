-- ===== src/ProofOfWork/Accept.antt =====
-- `SolveProofOfWork` of the client against `IsProofOfWorkValid` of the relay.
use stealthpipe_relay.Prelude.{
  ℕ, zero, suc, ◌+◌, ◌*◌, ◌≤◌, ◌<◌, true, false, none, some, List, ◌++◌, Text, text_key, ◌≡◌, refl,
  arith, All, length, ◌∙◌, ap,
}
use stealthpipe_relay.Numbers.{pos, print_int, print_nat}
use stealthpipe_relay.Dict.{lookup, insert}
use stealthpipe_relay.Types.{Server, unix, second}
use stealthpipe_relay.ProofOfWork.Tokens.{Crypto, ReadsBack, salt_of}
use stealthpipe_relay.ProofOfWork.{
  is_proof_of_work_valid, pow_payload, has_work, generate_proof_of_work,
}
use stealthpipe_relay.ProofOfWork.Verified.{verify_and_get_payload-sign}
use stealthpipe_relay.ProofOfWork.SingleUse.{check-fresh}
use stealthpipe_relay.ProofOfWork.Prefix.{check_work-has_work}
use stealthpipe_relay.Bench.Solver.{check_proof_of_work, solve_from}

-- A hash is 32 bytes.
pub record IsSha256 (sha256 : Text → List ℕ) : Type 0 where
  pub size : (t : Text) → length (sha256 t) ≡ 32
  pub bytes : (t : Text) → All (λ b. b < 256) (sha256 t)

-- What the search returns passes the client's own test.
solve_from_sound :
    (sha256 : Text → List ℕ) (fuel start : ℕ) (salt : Text) (difficulty nonce : ℕ)
    → solve_from sha256 fuel start salt difficulty ≡ some nonce
    → check_proof_of_work sha256 salt nonce difficulty ≡ some true
unfolding solve_from
solve_from_sound sha256 zero start salt difficulty nonce h = cc
solve_from_sound sha256 (suc fuel) start salt difficulty nonce h =
    ground (arith, solve_from_sound sha256 fuel (suc start) salt difficulty nonce)

-- From the start on, the search finds the first nonce that passes, if the fuel reaches it.
pub solve_from-first :
    (sha256 : Text → List ℕ) (k fuel start : ℕ) (salt : Text) (difficulty : ℕ)
    → ((i : ℕ) → i < k → check_proof_of_work sha256 salt (start + i) difficulty ≡ some false)
    → check_proof_of_work sha256 salt (start + k) difficulty ≡ some true
    → k < fuel
    → solve_from sha256 fuel start salt difficulty ≡ some (start + k)
unfolding solve_from
solve_from-first sha256 k zero start salt difficulty fails passes h = elim h [ ]
solve_from-first sha256 zero (suc fuel) start salt difficulty fails passes h =
    let e : start + 0 ≡ start = omega arith in
    let passes' : check_proof_of_work sha256 salt start difficulty ≡ some true = rw e at passes in
    rw (passes', solve_from) (rw e)
solve_from-first sha256 (suc k) (suc fuel) start salt difficulty fails passes h =
    let e : start + 0 ≡ start = omega arith in
    let fails' : check_proof_of_work sha256 salt start difficulty ≡ some false =
      rw e at (fails 0 (omega arith)) in
    let shift : (i : ℕ) → suc start + i ≡ start + suc i = λ i. omega arith in
    rw (fails', solve_from)
      (solve_from-first sha256 k fuel (suc start) salt difficulty
          (λ i below. rw (shift i) (fails (suc i) (omega arith))) (rw (shift k) passes)
          (omega arith)
        ∙ ap some (shift k))

work_of_solution :
    (sha256 : Text → List ℕ) (salt : Text) (nonce difficulty : ℕ)
    → IsSha256 sha256
    → difficulty ≤ 64
    → check_proof_of_work sha256 salt nonce difficulty ≡ some true
    → has_work (sha256 (salt ++ print_int (pos nonce))) difficulty ≡ true
unfolding check_proof_of_work print_int
work_of_solution sha256 salt nonce difficulty hash small passes = cc (
    check_work-has_work (sha256 (salt ++ print_nat nonce)) difficulty (hash.bytes _)
      (omega (arith, hash.size (salt ++ print_nat nonce))))

module _ (lib : Crypto) (secret : Text) where
  -- The nonce that a client's search returns for the salt and the difficulty of a challenge is
  -- accepted by the relay, in any later state of it in which the salt is new, until the token
  -- expires; the salt is then on the list with the token's expiry.
  pub generate-solve-accept :
      (app app' : Server) (random now later fuel nonce : ℕ)
      → IsSha256 lib.sha256
      → app.current_difficulty ≤ 64
      → ReadsBack lib secret (pow_payload app random now)
      → later < unix (now + 60 * second * app.config.pow_token_expiry_minutes) * second
      → lookup (generate_proof_of_work lib secret app random now).1 app'.used_salts ≡ none
      → solve_from lib.sha256 fuel 0
          (generate_proof_of_work lib secret app random now).1
          app.current_difficulty
        ≡ some nonce
      → is_proof_of_work_valid lib secret app'
          (generate_proof_of_work lib secret app random now).0
          (pos nonce)
          later
        ≡ some (
          record app' {
            used_salts =
                insert
                  (generate_proof_of_work lib secret app random now).1
                  (unix (now + 60 * second * app.config.pow_token_expiry_minutes))
                  app'.used_salts;
          },
          true,
        )
  unfolding generate_proof_of_work
  generate-solve-accept app app' random now later fuel nonce hash small back early fresh solved =
      let e = unix (now + 60 * second * app.config.pow_token_expiry_minutes) in
      let p = pow_payload app random now in
      rw
        (check-fresh lib secret app' (lib.sign secret p) (pos nonce) later e p
          (verify_and_get_payload-sign lib secret later e p back refl early) refl fresh)
        (rw (
          work_of_solution lib.sha256 (salt_of p) nonce app.current_difficulty hash small
            (solve_from_sound lib.sha256 fuel 0 (salt_of p) app.current_difficulty nonce solved)))
