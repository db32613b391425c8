-- ===== src/ProofOfWork/Ledger.antt =====
-- What the list of used salts of src/core/ProofOfWork.go promises: a ledger of all the salts that
-- were ever taken, which the relay keeps without the salts that have expired.
use stealthpipe_relay.Prelude.{
  ℕ, ◌≤◌, Bool, true, false, Option, none, some, List, [], ◌∷◌, ◌++◌, Text, text_key, if◌then◌else◌,
  All, Bool-cases, text_beq_iff, ◌≡◌, refl, inl, inr, arith, Option-cases,
}
use stealthpipe_relay.Numbers.{ℤ, print_int}
use stealthpipe_relay.Dict.{Dict, lookup, insert}
use stealthpipe_relay.Dict.Laws.{member, lookup-insert}
use stealthpipe_relay.Types.{Server, unix}
use stealthpipe_relay.ProofOfWork.Tokens.{
  Payload, Crypto, IsJwt, salt_of, diff_of, verify_and_get_payload,
}
use stealthpipe_relay.ProofOfWork.Verified.{verified-unexpired}
use stealthpipe_relay.ProofOfWork.{
  expire_salts, clean_used_salts, is_proof_of_work_valid, check_claims, has_work,
}
use stealthpipe_relay.ProofOfWork.SingleUse.{
  Event, check, clean, step, IsSpent, InOrder, after, step-IsSpent, later-IsSpent, check-fresh,
  check-spent,
}

-- The salts that were taken, and nothing else.
abbrev pub Ledger : Type 0
Ledger = List Text

module _ (lib : Crypto) (secret : Text) where
  abbrev ledger_claims : Ledger → Payload → Option ℕ → ℤ → Option (Ledger × Bool)
  ledger_claims taken p none nonce = none
  ledger_claims taken p (some e) nonce =
      if member (salt_of p) taken
      then some (taken, false)
      else some
          (salt_of p ∷ taken, has_work (lib.sha256 (salt_of p ++ print_int nonce)) (diff_of p))

  -- The check of a token as the ledger has it: a salt that was ever taken is refused.
  abbrev pub ledger_check : Ledger → Option Payload → ℤ → Option (Ledger × Bool)
  ledger_check taken none nonce = some (taken, false)
  ledger_check taken (some p) nonce = ledger_claims taken p p.exp nonce

  abbrev pub answer {ℓ} : {S : Type ℓ} → Option (S × Bool) → Option Bool
  answer none = none
  answer (some (s, b)) = some b

  abbrev pub ledger_after : Ledger → Option (Ledger × Bool) → Ledger
  ledger_after taken none = taken
  ledger_after taken (some (taken', b)) = taken'

  -- The answers of the ledger to the checks of a run; cleanings are none of its business.
  abbrev pub ledger_answers : Ledger → List (ℕ × Event) → List (Option Bool)
  ledger_answers taken [] = []
  ledger_answers taken ((now, check token nonce) ∷ es) =
      let r = ledger_check taken (verify_and_get_payload lib secret now token) nonce in
      answer r ∷ ledger_answers (ledger_after taken r) es
  ledger_answers taken ((now, clean) ∷ es) = ledger_answers taken es

  -- The answers of the relay to the checks of the same run.
  unfoldable pub answers : Server → List (ℕ × Event) → List (Option Bool)
  answers app [] = []
  answers app ((now, check token nonce) ∷ es) =
      answer (is_proof_of_work_valid lib secret app token nonce now)
      ∷ answers (step lib secret app (now, check token nonce)) es
  answers app ((now, clean) ∷ es) = answers (step lib secret app (now, clean)) es

  module _ (expiry_of : Text → ℕ) where
    -- The tokens of a run that carry the same salt expire at the same second.
    abbrev pub Expires : ℕ × Event → Type 0
    Expires (now, check token nonce) =
        (p : Payload) (e : ℕ)
        → verify_and_get_payload lib secret now token ≡ some p
        → p.exp ≡ some e
        → e ≡ expiry_of (salt_of p)
    Expires (now, clean) = Unit

    -- The list is a part of the ledger, and what it lacks has expired.
    record IsKept (app : Server) (taken : Ledger) (now : ℕ) : Type 0 where
      listed : All (λ q. (member q.0 taken ≡ true) × (q.1 ≡ expiry_of q.0)) app.used_salts
      spent : (salt : Text) → member salt taken ≡ true → IsSpent salt (expiry_of salt) now app

    lookup-listed :
        (taken : Ledger) (m : Dict Text ℕ) (salt : Text) (v : ℕ)
        → All (λ q. (member q.0 taken ≡ true) × (q.1 ≡ expiry_of q.0)) m
        → lookup salt m ≡ some v
        → (member salt taken ≡ true) × (v ≡ expiry_of salt)
    unfolding lookup
    lookup-listed taken [] salt v all h = cc
    lookup-listed taken ((k, w) ∷ m) salt v all h =
        ground (arith, text_beq_iff k salt, lookup-listed taken m salt v all.1)

    expire_salts-listed :
        (P : Text × ℕ → Type 0) (now : ℕ) (m : Dict Text ℕ) → All P m → All P (expire_salts now m)
    unfolding expire_salts
    expire_salts-listed P now [] all = tt
    expire_salts-listed P now ((k, w) ∷ m) all = ground (arith, expire_salts-listed P now m all.1)

    insert-listed :
        (P : Text × ℕ → Type 0) (k : Text) (v : ℕ) (m : Dict Text ℕ)
        → All P m
        → P (k, v)
        → All P (insert k v m)
    unfolding insert
    insert-listed P k v [] all p = (p, tt)
    insert-listed P k v ((j, w) ∷ m) all p =
        ground (arith, text_beq_iff j k, insert-listed P k v m all.1 p)

    -- What one check shows and leaves is what the ledger's does.
    abbrev IsSame : Server → Ledger → ℕ → Option (Server × Bool) → Option (Ledger × Bool) → Type 0
    IsSame app taken now r s =
        (answer r ≡ answer s) × IsKept (after lib secret app r) (ledger_after taken s) now

    All-more :
        (taken : Ledger) (salt : Text) (m : Dict Text ℕ)
        → All (λ q. (member q.0 taken ≡ true) × (q.1 ≡ expiry_of q.0)) m
        → All (λ q. (member q.0 (salt ∷ taken) ≡ true) × (q.1 ≡ expiry_of q.0)) m
    All-more taken salt [] all = tt
    All-more taken salt ((k, v) ∷ m) all = ground (arith, All-more taken salt m all.1)

    take-IsKept :
        (app : Server) (taken : Ledger) (now e : ℕ) (salt : Text)
        → IsKept app taken now
        → e ≡ expiry_of salt
        → IsKept (record app { used_salts = insert salt e app.used_salts }) (salt ∷ taken) now
    take-IsKept app taken now e salt kept same = record {
      listed =
          insert-listed (λ q. (member q.0 (salt ∷ taken) ≡ true) × (q.1 ≡ expiry_of q.0)) salt e
            app.used_salts (All-more taken salt app.used_salts kept.listed)
            (ground (arith, text_beq_iff salt salt), same);
      spent = λ other m. ground (
        arith,
        kept.spent other,
        lookup-insert salt other e app.used_salts,
        text_beq_iff salt other,
      );
    }

    claims-IsSame :
        (app : Server) (taken : Ledger) (now e : ℕ) (token : Text) (nonce : ℤ) (p : Payload)
        → IsJwt lib
        → verify_and_get_payload lib secret now token ≡ some p
        → p.exp ≡ some e
        → e ≡ expiry_of (salt_of p)
        → IsKept app taken now
        → IsSame app taken now
            (is_proof_of_work_valid lib secret app token nonce now)
            (ledger_claims taken p (some e) nonce)
    claims-IsSame app taken now e token nonce p jwt parsed expires same kept =
        elim (Option-cases (lookup (salt_of p) app.used_salts)) [
          | inl fresh ↦ elim (Bool-cases (member (salt_of p) taken)) [
            | inl was ↦ elim (kept.spent (salt_of p) was) [
              | inl listed ↦ absurd (cc)
              | inr past ↦
                  let ahead = verified-unexpired lib secret token now e p jwt parsed expires in
                  absurd (omega arith)
            ]
            | inr new ↦
                rw (check-fresh lib secret app token nonce now e p parsed expires fresh, new)
                  (refl, take-IsKept app taken now e (salt_of p) kept same)
          ]
          | inr (v, used) ↦
              rw
                (
                  check-spent lib secret app token nonce now e v p parsed expires used,
                  (lookup-listed taken app.used_salts (salt_of p) v kept.listed used).0,
                )
                (refl, kept)
        ]

    check-IsSame :
        (app : Server) (taken : Ledger) (now : ℕ) (token : Text) (nonce : ℤ)
        → IsJwt lib
        → Expires (now, check token nonce)
        → IsKept app taken now
        → IsSame app taken now
            (is_proof_of_work_valid lib secret app token nonce now)
            (ledger_check taken (verify_and_get_payload lib secret now token) nonce)
    check-IsSame app taken now token nonce jwt same kept =
        elim (Option-cases (verify_and_get_payload lib secret now token)) [
          | inl bad ↦ unfold is_proof_of_work_valid in rw (bad, is_proof_of_work_valid) (refl, kept)
          | inr (p, parsed) ↦ elim (Option-cases p.exp) [
            | inl never ↦
                unfold is_proof_of_work_valid in
                unfold check_claims in
                rw (parsed, is_proof_of_work_valid) (rw (never, check_claims) (refl, kept))
            | inr (e, expires) ↦
                rw (parsed, expires)
                  (claims-IsSame app taken now e token nonce p jwt parsed expires
                    (same p e parsed expires) kept)
          ]
        ]

    later-IsKept :
        (app : Server) (taken : Ledger) (now later : ℕ)
        → now ≤ later
        → IsKept app taken now
        → IsKept app taken later
    later-IsKept app taken now later h kept = record {
      listed = kept.listed;
      spent = λ salt m.
          later-IsSpent lib secret salt (expiry_of salt) now later app h (kept.spent salt m);
    }

    clean-IsKept :
        (app : Server) (taken : Ledger) (now : ℕ)
        → IsKept app taken now
        → IsKept (step lib secret app (now, clean)) taken now
    unfolding step clean_used_salts
    clean-IsKept app taken now kept = record {
      listed = expire_salts-listed _ (unix now) app.used_salts kept.listed;
      spent =
          λ salt m. step-IsSpent lib secret salt (expiry_of salt) app now clean (kept.spent salt m);
    }

    answers-kept :
        (es : List (ℕ × Event)) (app : Server) (taken : Ledger) (now last : ℕ)
        → IsJwt lib
        → All Expires es
        → InOrder lib secret now es last
        → IsKept app taken now
        → answers app es ≡ ledger_answers taken es
    unfolding answers step
    answers-kept [] app taken now last jwt same order kept = refl
    answers-kept ((t, check token nonce) ∷ es) app taken now last jwt same order kept =
        let r =
          check-IsSame app taken t token nonce jwt same.0
            (later-IsKept app taken now t order.0 kept) in
        let rest = answers-kept es _ _ t last jwt same.1 order.1 r.1 in rw (r.0, rest) refl
    answers-kept ((t, clean) ∷ es) app taken now last jwt same order kept =
        answers-kept es _ taken t last jwt same.1 order.1
          (clean-IsKept app taken t (later-IsKept app taken now t order.0 kept))

    -- Starting with no used salts, over any run of checks and cleanings in which the clock does not
    -- run back and tokens with the same salt expire together: the relay answers each check as a ledger
    -- does that keeps every salt ever taken, so its cleanings lose nothing.
    pub answers-ledger :
        (es : List (ℕ × Event)) (app : Server) (now last : ℕ)
        → app.used_salts ≡ []
        → IsJwt lib
        → All Expires es
        → InOrder lib secret now es last
        → answers app es ≡ ledger_answers [] es
    answers-ledger es app now last empty jwt same order =
        answers-kept es app [] now last jwt same order
          (record { listed = rw empty tt; spent = λ salt m. absurd (cc) })
