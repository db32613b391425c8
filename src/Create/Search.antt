-- ===== src/Create/Search.antt =====
-- The search for a free room code.
use native.Mathlib.Decide.{ℕ_discrete}
use native.Mathlib.Nat.{le_refl}
use stealthpipe_relay.Prelude.{
  ℕ, zero, suc, ◌+◌, ◌≤◌, ◌<◌, true, false, Option, none, some, Text, text_key, ◌≡◌, refl, ◌⊎◌, inl,
  inr, arith, Bool-cases, length,
}
use stealthpipe_relay.Numbers.Six.{length-print_six}
use stealthpipe_relay.Dict.{lookup}
use stealthpipe_relay.Types.{Server}
use stealthpipe_relay.Create.{
  World, generate_random_id, is_taken, special_code, search_code, fresh_code,
}

module _ (app : Server) (draws : ℕ → ℕ) where
  abbrev pub code_at : ℕ → Text
  code_at k = generate_random_id (draws k)

  -- The codes of the draws from `start` up to `end` belong to rooms.
  abbrev pub AllTaken : ℕ → ℕ → Type 0
  AllTaken start end = (j : ℕ) → start ≤ j → j < end → is_taken app (code_at j) ≡ true

  taken-AllTaken :
      (start end : ℕ)
      → is_taken app (code_at start) ≡ true
      → AllTaken (suc start) end
      → AllTaken start end
  taken-AllTaken start end taken rest j lo hi = elim (ℕ_discrete j start) [
    | yes e ↦ rw e taken
    | no ne ↦ rest j (omega arith) hi
  ]

  search_code-taken :
      (left start : ℕ)
      → is_taken app (code_at start) ≡ true
      → search_code app draws (suc left) start ≡ search_code app draws left (suc start)
  unfolding search_code
  search_code-taken left start taken = ground arith

  search_code-free :
      (left start : ℕ)
      → is_taken app (code_at start) ≡ false
      → search_code app draws (suc left) start ≡ some (code_at start)
  unfolding search_code
  search_code-free left start free = ground arith

  -- The search gives the first free code among `left` draws, and fails exactly if all are taken.
  abbrev pub Searched : ℕ → ℕ → Option Text → Type 0
  Searched left start result =
      ((k : ℕ) × (start ≤ k)
        × (k < start + left)
        × (result ≡ some (code_at k))
        × (is_taken app (code_at k) ≡ false)
        × AllTaken start k)
      ⊎ ((result ≡ none) × AllTaken start (start + left))

  search_code-Searched : (left start : ℕ) → Searched left start (search_code app draws left start)
  search_code-Searched zero start =
      inr (unfold search_code in refl, λ j lo hi. absurd (omega arith))
  search_code-Searched (suc left) start = elim (Bool-cases (is_taken app (code_at start))) [
    | inl taken ↦
        rw (search_code-taken left start taken) (go taken (search_code-Searched left (suc start)))
    | inr free ↦ inl (
      start,
      le_refl start,
      omega arith,
      search_code-free left start free,
      free,
      λ j lo hi. absurd (omega arith),
    )
  ]
    where
      go :
          is_taken app (code_at start) ≡ true
          → Searched left (suc start) (search_code app draws left (suc start))
          → Searched (suc left) start (search_code app draws left (suc start))
      go taken (inl (k, lo, hi, found, free, before)) =
          inl (k, omega arith, omega arith, found, free, taken-AllTaken start k taken before)
      go taken (inr (failed, all)) = inr (
        failed,
        taken-AllTaken start (start + suc left) taken (λ j lo hi. all j lo (omega arith)),
      )

-- The code of a new room is free. If the lot fell on the special code and it was free, it is that;
-- else it is the first free one of at most 10000 random codes. There is no code only if all of the
-- 10000 were taken.
pub fresh_code-Searched :
    (app : Server) (world : World)
    → ((world.lucky ≡ true)
        × (is_taken app special_code ≡ false)
        × (fresh_code app world ≡ some special_code))
      ⊎ Searched app world.draws 10000 0 (fresh_code app world)
unfolding fresh_code
fresh_code-Searched app world = ground (arith, search_code-Searched app world.draws 10000 0)

is_taken-none :
    (app : Server) (code : Text) → is_taken app code ≡ false → lookup code app.rooms ≡ none
is_taken-none app code h = ground arith

length-random_id : (n : ℕ) → n < 1000000 → length (generate_random_id n) ≡ 6
unfolding generate_random_id
length-random_id n h = length-print_six n h

-- With draws below 1000000, a code that the handler chooses has six characters and no room.
pub fresh_code_lem :
    (app : Server) (world : World) (code : Text)
    → ((k : ℕ) → world.draws k < 1000000)
    → fresh_code app world ≡ some code
    → (length code ≡ 6) × (lookup code app.rooms ≡ none)
fresh_code_lem app world code draws h = go (fresh_code-Searched app world)
  where
    go :
        ((world.lucky ≡ true)
            × (is_taken app special_code ≡ false)
            × (fresh_code app world ≡ some special_code))
          ⊎ Searched app world.draws 10000 0 (fresh_code app world)
        → (length code ≡ 6) × (lookup code app.rooms ≡ none)
    go (inl (lucky, free, found)) =
        let e : special_code ≡ code = cc in rw (← e) (refl, is_taken-none app special_code free)
    go (inr (inl (k, lo, hi, found, free, before))) =
        let e : generate_random_id (world.draws k) ≡ code = cc in
        rw (← e) (
          length-random_id (world.draws k) (draws k),
          is_taken-none app (generate_random_id (world.draws k)) free,
        )
    go (inr (inr (failed, all))) = absurd (cc)
