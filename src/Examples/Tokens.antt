-- ===== src/Examples/Tokens.antt =====
-- Tokens and nonces.
use stealthpipe_relay.Prelude.{
  ℕ, ◌+◌, ◌*◌, ◌<◌, true, false, none, some, List, [], ◌∷◌, Text, codes, text_key, ◌==◌,
  if◌then◌else◌, replicate, ◌≡◌, refl, arith, zero, suc,
}
use stealthpipe_relay.Numbers.{pos, print_nat}
use stealthpipe_relay.Dict.{lookup, insert}
use stealthpipe_relay.Types.{new_server, second}
use stealthpipe_relay.ProofOfWork.Tokens.{Payload, verify_and_get_payload}
use stealthpipe_relay.ProofOfWork.{
  is_proof_of_work_valid, pow_payload, generate_proof_of_work, has_work,
}
use stealthpipe_relay.ProofOfWork.SingleUse.{single_use, step, run, check, clean, Event}
use stealthpipe_relay.ProofOfWork.Ledger.{answers, ledger_answers, answers-ledger}
use stealthpipe_relay.ProofOfWork.Accept.{generate-solve-accept, solve_from-first}
use stealthpipe_relay.ProofOfWork.Prefix.{check_work-has_work}
use stealthpipe_relay.Bench.Solver.{check_work, check_proof_of_work, solve_from}
use stealthpipe_relay.ReuseTokens.{is_reuse_token_valid, reuse_payload, generate_reuse_token}
use stealthpipe_relay.ReuseTokens.Roles.{reuse_token_is_work, other_method_refused}
use stealthpipe_relay.Examples.{
  unsigned, alive, alive-claims, one_token, secret, one_token-IsJwt, one_token-ReadsBack,
  one_token-IsSha256, code,
}

abbrev challenge : Payload
challenge = record { salt = some (codes "7-7"); diff = some 5; code = none; exp = some 300 }

-- Another check of the token, and a cleaning after the expiry.
abbrev history : List (ℕ × Event)
history = (2 * second, check (codes "token") (pos 9)) ∷ (400 * second, clean) ∷ []

single_use_example :
    let app' =
      run
        (one_token challenge)
        secret
        (step (one_token challenge) secret new_server (second, check (codes "token") (pos 8)))
        history in
    is_proof_of_work_valid (one_token challenge) secret app' (codes "token") (pos 8) (500 * second)
    ≡ some (app', false)
unfolding lookup verify_and_get_payload
single_use_example =
    single_use (one_token challenge) secret new_server (codes "token") (pos 8) (pos 8) second
      (500 * second) 300 challenge history (one_token-IsJwt challenge) refl refl refl (ground arith)

challenge-Expires :
    (now : ℕ) (p : Payload) (e : ℕ)
    → alive now challenge (some 300) ≡ some p
    → p.exp ≡ some e
    → e ≡ 300
challenge-Expires now p e h k =
    let same = alive-claims challenge p now (some 300) h in
    let written : some 300 ≡ some e = rw (← same) at k in ground arith

-- A check, a replay, and a replay after a cleaning that takes the salt off the list.
answers-ledger_example :
    answers
      (one_token challenge)
      secret
      new_server
      ((second, check (codes "token") (pos 8)) ∷ history)
    ≡ ledger_answers
        (one_token challenge)
        secret
        []
        ((second, check (codes "token") (pos 8)) ∷ history)
unfolding verify_and_get_payload
answers-ledger_example =
    answers-ledger (one_token challenge) secret (λ salt. 300)
      ((second, check (codes "token") (pos 8)) ∷ history) new_server 0 (400 * second) refl
      (one_token-IsJwt challenge)
      (challenge-Expires second, (challenge-Expires (2 * second), (tt, tt))) (ground arith)

abbrev reuse_claims : Payload
reuse_claims = reuse_payload new_server code second

reuse_token_is_work_example :
    is_proof_of_work_valid
      (one_token reuse_claims)
      secret
      new_server
      (generate_reuse_token (one_token reuse_claims) secret new_server code second)
      (pos 8)
      (2 * second)
    ≡ some (record new_server { used_salts = insert [] 10801 [] }, true)
unfolding lookup
reuse_token_is_work_example =
    reuse_token_is_work (one_token reuse_claims) secret new_server new_server code (pos 8) second
      (2 * second) (one_token-ReadsBack reuse_claims) (omega arith) refl

other_method_refused_example :
    (is_proof_of_work_valid (one_token challenge) secret new_server unsigned (pos 8) second
      ≡ some (new_server, false))
    × (is_reuse_token_valid (one_token challenge) secret unsigned second ≡ [])
other_method_refused_example =
    other_method_refused (one_token challenge) secret new_server unsigned (codes "none") (pos 8)
      second (one_token-IsJwt challenge) refl

abbrev work_claims : Payload
work_claims = pow_payload new_server 7 second

generate-solve-accept_example :
    let salt = (generate_proof_of_work (one_token work_claims) secret new_server 7 second).1 in
    is_proof_of_work_valid
      (one_token work_claims)
      secret
      new_server
      (generate_proof_of_work (one_token work_claims) secret new_server 7 second).0
      (pos 0)
      (2 * second)
    ≡ some (record new_server { used_salts = insert salt 301 [] }, true)
unfolding lookup solve_from check_proof_of_work
generate-solve-accept_example =
    generate-solve-accept (one_token work_claims) secret new_server new_server 7 second (2 * second)
      3 0 (one_token-IsSha256 work_claims) (omega arith) (one_token-ReadsBack work_claims)
      (omega arith) refl refl

-- A hash of which only the third nonce has work.
abbrev hash : Text → List ℕ
hash text = if text == codes "s2" then replicate 32 0 else replicate 32 255

first_two_fail : (i : ℕ) → i < 2 → check_proof_of_work hash (codes "s") (0 + i) 5 ≡ some false
unfolding check_proof_of_work print_nat
first_two_fail zero h = refl
first_two_fail (suc zero) h = refl
first_two_fail (suc (suc i)) h = absurd (omega arith)

solve_from-first_example : solve_from hash 9 0 (codes "s") 5 ≡ some 2
unfolding check_proof_of_work print_nat
solve_from-first_example =
    solve_from-first hash 2 9 0 (codes "s") 5 first_two_fail refl (omega arith)

check_work-has_work_example :
    check_work (0 ∷ 0 ∷ 15 ∷ 255 ∷ []) 5 ≡ some (has_work (0 ∷ 0 ∷ 15 ∷ 255 ∷ []) 5)
check_work-has_work_example =
    check_work-has_work (0 ∷ 0 ∷ 15 ∷ 255 ∷ []) 5 (ground arith) (omega arith)
