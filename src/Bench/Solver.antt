-- ===== src/Bench/Solver.antt =====
-- benchmark/src/sec/ProofOfWork.go (and its copy src/tests/ProofOfWork.go): finding a nonce.
use stealthpipe_relay.Prelude.{
  ℕ, zero, suc, ◌/◌, ◌%◌, Bool, true, false, Option, none, some, List, ◌++◌, Text, nat_beq, leb,
  if◌then◌else◌, get_elem?, not,
}
use stealthpipe_relay.Numbers.{print_nat}

-- `hash[i] != 0` for each `i` under the bound; an index out of range is a panic, `none`.
unfoldable pub check_bytes : ℕ → ℕ → List ℕ → Option Bool
check_bytes zero i hash = some true
check_bytes (suc left) i hash = elim (get_elem? hash i) [
  | none ↦ none
  | some b ↦ elim (nat_beq b 0) [ true ↦ check_bytes left (suc i) hash | false ↦ some false ]
]

-- `(hash[i] & 0xFF) <= 0x0F`
unfoldable pub check_nibble : Option ℕ → Option Bool
check_nibble none = none
check_nibble (some b) = some (leb (b % 256) 0x0f)

unfoldable pub check_rest : Option Bool → ℕ → List ℕ → Option Bool
unfolding check_nibble
check_rest none difficulty hash = none
check_rest (some false) difficulty hash = some false
check_rest (some true) difficulty hash =
    if not (nat_beq (difficulty % 2) 0)
    then check_nibble (get_elem? hash (difficulty / 2))
    else some true

-- `checkProofOfWork`, after the hash
unfoldable pub check_work : List ℕ → ℕ → Option Bool
unfolding check_bytes check_rest
check_work hash difficulty = check_rest (check_bytes (difficulty / 2) 0 hash) difficulty hash

module _ (sha256 : Text → List ℕ) where
  unfoldable pub check_proof_of_work : Text → ℕ → ℕ → Option Bool
  unfolding check_work
  check_proof_of_work salt nonce difficulty =
      check_work (sha256 (salt ++ print_nat nonce)) difficulty

  -- The loop of `SolveProofOfWork`: `none` is a panic, or that the fuel ran out.
  unfoldable pub solve_from : ℕ → ℕ → Text → ℕ → Option ℕ
  solve_from zero nonce salt difficulty = none
  solve_from (suc fuel) nonce salt difficulty = elim (check_proof_of_work salt nonce difficulty) [
    | none ↦ none
    | some valid ↦ elim valid [
      | true ↦ some nonce
      | false ↦ solve_from fuel (suc nonce) salt difficulty
    ]
  ]
