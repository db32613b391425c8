-- ===== src/ProofOfWork/Prefix.antt =====
-- The relay tests a hash on its hexadecimal text, the clients test it on its bytes.
use stealthpipe_relay.Prelude.{
  ℕ, zero, suc, ◌*◌, ◌/◌, ◌%◌, ◌≤◌, ◌<◌, Bool, true, false, ◌&&◌, Option, none, some, List, [], ◌∷◌,
  nat_beq, if◌then◌else◌, All, length, ◌≡◌, refl, arith,
}
use stealthpipe_relay.Bench.Solver.{check_bytes, check_rest, check_work}
use stealthpipe_relay.ProofOfWork.{has_work}

check_bytes-shift :
    (left i b : ℕ) (hash : List ℕ) → check_bytes left (suc i) (b ∷ hash) ≡ check_bytes left i hash
unfolding check_bytes
check_bytes-shift zero i b hash = refl
check_bytes-shift (suc left) i b hash = ground (arith, check_bytes-shift left (suc i) b hash)

check_rest-step :
    (r : Option Bool) (b d : ℕ) (hash : List ℕ)
    → check_rest r (suc (suc d)) (b ∷ hash) ≡ check_rest r d hash
unfolding check_rest
check_rest-step none b d hash = refl
check_rest-step (some false) b d hash = refl
check_rest-step (some true) b d hash =
    let half : suc (suc d) / 2 ≡ suc (d / 2) = omega arith in
    let odd : suc (suc d) % 2 ≡ d % 2 = omega arith in rw (half, odd)

-- Two more digits of difficulty are one more zero byte.
check_work-step :
    (b d : ℕ) (hash : List ℕ)
    → check_work (b ∷ hash) (suc (suc d)) ≡ (if nat_beq b 0 then check_work hash d else some false)
unfolding check_work
check_work-step b d hash =
    let half : suc (suc d) / 2 ≡ suc (d / 2) = omega arith in
    rw half (
      ground (
        arith,
        check_bytes-shift (d / 2) 0 b hash,
        check_rest-step (check_bytes (d / 2) 0 hash) b d hash,
      ))

has_work-step :
    (b d : ℕ) (hash : List ℕ)
    → b < 256
    → has_work (b ∷ hash) (suc (suc d)) ≡ (nat_beq b 0 && has_work hash d)
unfolding has_work
has_work-step b d hash h = ground arith

no_work : (hash : List ℕ) → check_work hash 0 ≡ some (has_work hash 0)
unfolding check_work has_work
no_work [] = refl
no_work (b ∷ hash) = refl

one_digit :
    (b : ℕ) (hash : List ℕ) → b < 256 → check_work (b ∷ hash) 1 ≡ some (has_work (b ∷ hash) 1)
unfolding check_work has_work
one_digit b hash h = ground arith

-- For a hash of enough bytes, the client's test on bytes does not panic and answers as the relay's
-- test on hexadecimal digits does. With the 32 bytes of SHA-256 this covers difficulties up to 64.
pub check_work-has_work :
    (hash : List ℕ) (difficulty : ℕ)
    → All (λ b. b < 256) hash
    → difficulty ≤ 2 * length hash
    → check_work hash difficulty ≡ some (has_work hash difficulty)
check_work-has_work hash zero bytes enough = no_work hash
check_work-has_work [] (suc d) bytes enough = absurd (omega arith)
check_work-has_work (b ∷ hash) (suc zero) bytes enough = one_digit b hash bytes.0
check_work-has_work (b ∷ hash) (suc (suc d)) bytes enough =
    rw (check_work-step b d hash, has_work-step b d hash bytes.0)
      (ground (arith, check_work-has_work hash d bytes.1))
