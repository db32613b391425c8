-- ===== src/Dict.antt =====
-- Go maps as association lists. A read of a missing key is `none`; `delete` of one changes nothing.
-- The order of a list is one order in which `range` may visit the map.
pub mod Laws
pub mod Distinct
use stealthpipe_relay.Prelude.{
  Bool, true, false, List, [], ◌∷◌, Option, none, some, Key, ◌==◌, if◌then◌else◌, not, keep, map,
}

abbrev pub Dict {ℓ κ} : Type ℓ → Type κ → Type (ℓ ⊔ κ)
Dict K V = List (K × V)

module _ {ℓ κ} {K : Type ℓ} {V : Type κ} where
  abbrev pub is_nil : Dict K V → Bool
  is_nil [] = true
  is_nil (e ∷ m) = false

  abbrev pub keys : Dict K V → List K
  keys = map (λ e. e.0)

module _ {ℓ κ} {K : Type ℓ} {V : Type κ} ⦃e : Key K⦄ where
  -- `m[key]`, with its second result
  unfoldable pub lookup : K → Dict K V → Option V
  lookup key [] = none
  lookup key ((k, value) ∷ rest) = if k == key then some value else lookup key rest

  -- `m[key] = new`
  unfoldable pub insert : K → V → Dict K V → Dict K V
  insert key new [] = (key, new) ∷ []
  insert key new ((k, value) ∷ rest) =
      if k == key then (key, new) ∷ rest else (k, value) ∷ insert key new rest

  -- `delete(m, key)`
  unfoldable pub delete : K → Dict K V → Dict K V
  delete key [] = []
  delete key ((k, value) ∷ rest) =
      if k == key then delete key rest else (k, value) ∷ delete key rest

  -- `for _, k := range ks { delete(m, k) }`
  unfoldable pub delete_all : List K → Dict K V → Dict K V
  delete_all [] m = m
  delete_all (k ∷ ks) m = delete_all ks (delete k m)
