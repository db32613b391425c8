-- ===== src/Dict/Laws.antt =====
-- What a read sees after a write.
use stealthpipe_relay.Prelude.{
  Bool, true, false, List, [], ◌∷◌, none, some, Key, ◌==◌, if◌then◌else◌, arith, ◌≡◌, refl, ◌≢◌, In,
  ◌||◌,
}
use stealthpipe_relay.Dict.{Dict, lookup, insert, delete, delete_all, is_nil}

module _ {ℓ} {K : Type ℓ} ⦃e : Key K⦄ where
  pub beq_refl : (k : K) → (k == k) ≡ true
  beq_refl k = (e.beq_iff k k).1 refl

  pub beq_ne : (k j : K) → k ≢ j → (k == j) ≡ false
  beq_ne k j h = ground (arith, e.beq_iff k j)

  abbrev pub member : K → List K → Bool
  member k [] = false
  member k (j ∷ ks) = j == k || member k ks

module _ {ℓ κ} {K : Type ℓ} {V : Type κ} ⦃e : Key K⦄ where
  pub lookup-insert :
      (key other : K) (new : V) (m : Dict K V)
      → lookup other (insert key new m) ≡ (if key == other then some new else lookup other m)
  unfolding lookup insert
  lookup-insert key other new [] = refl
  lookup-insert key other new ((k, value) ∷ rest) = ground (
    arith,
    lookup-insert key other new rest,
    e.beq_iff k key,
    e.beq_iff k other,
    e.beq_iff key other,
  )

  pub lookup-delete :
      (k j : K) (m : Dict K V) → lookup j (delete k m) ≡ (if k == j then none else lookup j m)
  unfolding lookup delete
  lookup-delete k j [] = ground arith
  lookup-delete k j ((i, w) ∷ m) =
      ground (arith, e.beq_iff k j, e.beq_iff i k, e.beq_iff i j, lookup-delete k j m)

  pub lookup-insert_self : (k : K) (v : V) (m : Dict K V) → lookup k (insert k v m) ≡ some v
  lookup-insert_self k v m = ground (arith, lookup-insert k k v m, beq_refl k)

  pub lookup-delete_self : (k : K) (m : Dict K V) → lookup k (delete k m) ≡ none
  lookup-delete_self k m = ground (arith, lookup-delete k k m, beq_refl k)

  pub lookup-delete_all :
      (ks : List K) (j : K) (m : Dict K V)
      → lookup j (delete_all ks m) ≡ (if member j ks then none else lookup j m)
  unfolding delete_all
  lookup-delete_all [] j m = refl
  lookup-delete_all (k ∷ ks) j m =
      ground (arith, lookup-delete_all ks j (delete k m), lookup-delete k j m)

  -- A map that holds a key is not empty.
  pub is_nil-insert : (k : K) (v : V) (m : Dict K V) → is_nil (insert k v m) ≡ false
  unfolding insert
  is_nil-insert k v [] = refl
  is_nil-insert k v (p ∷ m) = ground arith

module _ {K V : Type 0} ⦃e : Key K⦄ where
  -- A key that a read finds stands in the list with its value.
  pub In-of_lookup : (k : K) (v : V) (m : Dict K V) → lookup k m ≡ some v → In (k, v) m
  unfolding lookup
  In-of_lookup k v [] h = cc
  In-of_lookup k v ((i, w) ∷ m) h = ground (arith, e.beq_iff i k, In-of_lookup k v m)
