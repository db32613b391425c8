-- ===== src/ProofOfWork/SingleUse.antt =====
-- The list of used salts of src/core/ProofOfWork.go over a run of checks and cleanings.
use stealthpipe_relay.Prelude.{
  ℕ, ◌≤◌, ◌<◌, Bool, true, false, Option, none, some, List, [], ◌∷◌, ◌++◌, Text, text_key,
  text_beq_iff, ◌≡◌, refl, ◌⊎◌, inl, inr, arith, Option-cases,
}
use stealthpipe_relay.Numbers.{ℤ, print_int}
use stealthpipe_relay.Dict.{Dict, lookup, insert}
use stealthpipe_relay.Dict.Laws.{lookup-insert, lookup-insert_self}
use stealthpipe_relay.Types.{Server, unix}
use stealthpipe_relay.ProofOfWork.Tokens.{
  Payload, Crypto, IsJwt, salt_of, diff_of, verify_and_get_payload,
}
use stealthpipe_relay.ProofOfWork.Verified.{verified-same_claims, verified-unexpired}
use stealthpipe_relay.ProofOfWork.{
  is_replay, expire_salts, clean_used_salts, is_proof_of_work_valid, check_claims, check_hash,
  has_work,
}

lookup-expire_salts :
    (salt : Text) (e now : ℕ) (m : Dict Text ℕ)
    → lookup salt m ≡ some e
    → now ≤ e
    → lookup salt (expire_salts now m) ≡ some e
unfolding lookup expire_salts
lookup-expire_salts salt e now [] h b = cc
lookup-expire_salts salt e now ((k, v) ∷ m) h b =
    ground (arith, text_beq_iff k salt, lookup-expire_salts salt e now m)

-- The salt is on the list, or its expiry in seconds is past.
abbrev pub IsSpent : Text → ℕ → ℕ → Server → Type 0
IsSpent salt e now app = (lookup salt app.used_salts ≡ some e) ⊎ (e < unix now)

is_replay-IsSpent :
    (salt : Text) (e now : ℕ) (k : Text) (v : ℕ) (app : Server)
    → IsSpent salt e now app
    → IsSpent salt e now (is_replay app k v).0
unfolding is_replay
is_replay-IsSpent salt e now k v app s =
    ground (arith, lookup-insert k salt v app.used_salts, text_beq_iff k salt)

clean_used_salts-IsSpent :
    (salt : Text) (e now : ℕ) (app : Server)
    → IsSpent salt e now app
    → IsSpent salt e now (clean_used_salts app now)
unfolding clean_used_salts
clean_used_salts-IsSpent salt e now app s =
    ground (arith, lookup-expire_salts salt e (unix now) app.used_salts)

-- What happens to the salts in a run: checks of any tokens, and rounds of the cleaning loop.
pub data Event : Type 0 where
  check : Text → ℤ → Event
  clean : Event

module _ (lib : Crypto) (secret : Text) where
  -- A check that panics leaves the server as it was.
  abbrev pub after : Server → Option (Server × Bool) → Server
  after app none = app
  after app (some (app', answer)) = app'

  unfoldable pub step : Server → ℕ × Event → Server
  step app (now, check token nonce) =
      after app (is_proof_of_work_valid lib secret app token nonce now)
  step app (now, clean) = clean_used_salts app now

  unfoldable pub run : Server → List (ℕ × Event) → Server
  run app [] = app
  run app (e ∷ es) = run (step app e) es

  check_hash-state :
      (r : Server × Bool) (salt : Text) (diff : ℕ) (nonce : ℤ)
      → (check_hash lib secret r salt diff nonce).0 ≡ r.0
  unfolding check_hash
  check_hash-state (app, true) salt diff nonce = refl
  check_hash-state (app, false) salt diff nonce = refl

  module _ (P : Server → Type 0) where
    claims_cases :
        (app : Server) (p : Payload) (exp : Option ℕ) (nonce : ℤ)
        → P app
        → ((k : Text) (v : ℕ) → P (is_replay app k v).0)
        → P (after app (check_claims lib secret app p exp nonce))
    unfolding check_claims
    claims_cases app p none nonce same taken = same
    claims_cases app p (some v) nonce same taken =
        rw (check_hash-state (is_replay app (salt_of p) v) (salt_of p) (diff_of p) nonce)
          (taken (salt_of p) v)

    -- A check leaves the server as it was, or only looks at a salt and takes it.
    pub check_cases :
        (app : Server) (token : Text) (nonce : ℤ) (now : ℕ)
        → P app
        → ((k : Text) (v : ℕ) → P (is_replay app k v).0)
        → P (after app (is_proof_of_work_valid lib secret app token nonce now))
    unfolding is_proof_of_work_valid
    check_cases app token nonce now same taken =
        elim (Option-cases (verify_and_get_payload lib secret now token)) [
          | inl e ↦ rw (e, is_proof_of_work_valid) same
          | inr (p, e) ↦ rw (e, is_proof_of_work_valid) (claims_cases app p p.exp nonce same taken)
        ]

  pub step-IsSpent :
      (salt : Text) (e : ℕ) (app : Server) (now : ℕ) (event : Event)
      → IsSpent salt e now app
      → IsSpent salt e now (step app (now, event))
  unfolding step
  step-IsSpent salt e app now (check token nonce) s =
      check_cases (IsSpent salt e now) app token nonce now s
        (λ k v. is_replay-IsSpent salt e now k v app s)
  step-IsSpent salt e app now clean s = clean_used_salts-IsSpent salt e now app s

  -- The clock does not run back: each event is at or after the one before, and before `last`.
  abbrev pub InOrder : ℕ → List (ℕ × Event) → ℕ → Type 0
  InOrder now [] last = now ≤ last
  InOrder now ((t, event) ∷ es) last = (now ≤ t) × InOrder t es last

  pub later-IsSpent :
      (salt : Text) (e now later : ℕ) (app : Server)
      → now ≤ later
      → IsSpent salt e now app
      → IsSpent salt e later app
  later-IsSpent salt e now later app h (inl l) = inl l
  later-IsSpent salt e now later app h (inr l) = inr (omega arith)

  run-IsSpent :
      (salt : Text) (e now last : ℕ) (es : List (ℕ × Event)) (app : Server)
      → InOrder now es last
      → IsSpent salt e now app
      → IsSpent salt e last (run app es)
  unfolding run
  run-IsSpent salt e now last [] app h s = later-IsSpent salt e now last app h s
  run-IsSpent salt e now last ((t, event) ∷ es) app h s =
      run-IsSpent salt e t last es (step app (t, event)) h.1
        (step-IsSpent salt e app t event (later-IsSpent salt e now t app h.0 s))

  -- What a check does with a token that the library accepts and whose salt is new.
  pub check-fresh :
      (app : Server) (token : Text) (nonce : ℤ) (now e : ℕ) (p : Payload)
      → verify_and_get_payload lib secret now token ≡ some p
      → p.exp ≡ some e
      → lookup (salt_of p) app.used_salts ≡ none
      → is_proof_of_work_valid lib secret app token nonce now
        ≡ some (
          record app { used_salts = insert (salt_of p) e app.used_salts },
          has_work (lib.sha256 (salt_of p ++ print_int nonce)) (diff_of p),
        )
  unfolding is_proof_of_work_valid
  check-fresh app token nonce now e p parsed expires fresh =
      rw (parsed, is_proof_of_work_valid)
        (rw (expires, check_claims) (unfold is_replay in rw (fresh, is_replay) refl))

  -- And with a token whose salt is on the list.
  pub check-spent :
      (app : Server) (token : Text) (nonce : ℤ) (now e v : ℕ) (p : Payload)
      → verify_and_get_payload lib secret now token ≡ some p
      → p.exp ≡ some e
      → lookup (salt_of p) app.used_salts ≡ some v
      → is_proof_of_work_valid lib secret app token nonce now ≡ some (app, false)
  unfolding is_proof_of_work_valid
  check-spent app token nonce now e v p parsed expires spent =
      rw (parsed, is_proof_of_work_valid)
        (rw (expires, check_claims) (unfold is_replay in rw (spent, is_replay) refl))

  -- A spent token is refused from then on: as a replay while it lives, by the library afterwards.
  refused_later :
      (app : Server) (token : Text) (nonce : ℤ) (now later e : ℕ) (p : Payload)
      → IsJwt lib
      → verify_and_get_payload lib secret now token ≡ some p
      → p.exp ≡ some e
      → IsSpent (salt_of p) e later app
      → is_proof_of_work_valid lib secret app token nonce later ≡ some (app, false)
  unfolding is_proof_of_work_valid
  refused_later app token nonce now later e p jwt parsed expires spent =
      elim (Option-cases (verify_and_get_payload lib secret later token)) [
        | inl gone ↦ rw (gone, is_proof_of_work_valid) refl
        | inr (q, again) ↦ replayed q again spent
      ]
    where
      replayed :
          (q : Payload)
          → verify_and_get_payload lib secret later token ≡ some q
          → IsSpent (salt_of p) e later app
          → is_proof_of_work_valid lib secret app token nonce later ≡ some (app, false)
      replayed q again (inl listed) =
          let same = verified-same_claims lib secret token now later p q jwt parsed again in
          check-spent app token nonce later e e q again (rw (← same) expires) (rw (← same) listed)
      replayed q again (inr past) =
          let same = verified-same_claims lib secret token now later p q jwt parsed again in
          let ahead =
            verified-unexpired lib secret token later e q jwt again (rw (← same) expires) in
          absurd (omega arith)

  -- A token that the library accepts and whose salt is new can be checked once: whatever the first
  -- nonce and its answer were, and whatever other checks and cleanings follow while the clock does
  -- not run back, each later check of the token answers no and changes nothing.
  pub single_use :
      (app : Server) (token : Text) (nonce nonce' : ℤ) (now later e : ℕ) (p : Payload)
      (es : List (ℕ × Event))
      → IsJwt lib
      → verify_and_get_payload lib secret now token ≡ some p
      → p.exp ≡ some e
      → lookup (salt_of p) app.used_salts ≡ none
      → InOrder now es later
      → let app' = run (step app (now, check token nonce)) es in
        is_proof_of_work_valid lib secret app' token nonce' later ≡ some (app', false)
  unfolding step
  single_use app token nonce nonce' now later e p es jwt parsed expires fresh order =
      refused_later _ token nonce' now later e p jwt parsed expires (
        run-IsSpent (salt_of p) e now later es _ order (
          rw (check-fresh app token nonce now e p parsed expires fresh)
            (inl (lookup-insert_self (salt_of p) e app.used_salts))))
