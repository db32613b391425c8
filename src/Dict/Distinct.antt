-- ===== src/Dict/Distinct.antt =====
-- A Go map has one value for each key: no key stands twice in the list.
use stealthpipe_relay.Prelude.{
  Bool, false, List, [], ◌∷◌, none, some, Key, if◌then◌else◌, arith, ◌≡◌, refl, In, inl, inr,
}
use stealthpipe_relay.Dict.{Dict, lookup, insert, delete}
use stealthpipe_relay.Dict.Laws.{lookup-insert, lookup-delete, member}

module _ {K V : Type 0} ⦃e : Key K⦄ where
  abbrev pub IsDict : Dict K V → Type 0
  IsDict [] = Unit
  IsDict ((k, v) ∷ m) = (lookup k m ≡ none) × IsDict m

  pub insert-IsDict : (k : K) (v : V) (m : Dict K V) → IsDict m → IsDict (insert k v m)
  unfolding insert lookup
  insert-IsDict k v [] h = (refl, tt)
  insert-IsDict k v ((j, w) ∷ m) h =
      ground (arith, e.beq_iff j k, lookup-insert k j v m, e.beq_iff k j, insert-IsDict k v m h.1)

  pub delete-IsDict : (k : K) (m : Dict K V) → IsDict m → IsDict (delete k m)
  unfolding delete
  delete-IsDict k [] h = tt
  delete-IsDict k ((j, w) ∷ m) h = ground (arith, lookup-delete k j m, delete-IsDict k m h.1)

  -- The entries of the list are what a read finds.
  pub lookup_of_In : (k : K) (v : V) (m : Dict K V) → IsDict m → In (k, v) m → lookup k m ≡ some v
  unfolding lookup
  lookup_of_In k v [] h i = absurd i
  lookup_of_In k v ((j, w) ∷ m) h (inl q) = ground (arith, e.beq_iff j k)
  lookup_of_In k v ((j, w) ∷ m) h (inr i) = ground (arith, e.beq_iff j k, lookup_of_In k v m h.1 i)

module _ {K V : Type 0} ⦃e : Key K⦄ (p : K → V → Bool) where
  -- The keys of the entries that pass a test, in the order of the visit.
  unfoldable pub keys_where : Dict K V → List K
  keys_where [] = []
  keys_where ((k, v) ∷ m) = if p k v then k ∷ keys_where m else keys_where m

  module _ (k : K) where
    keys_where-absent : (m : Dict K V) → lookup k m ≡ none → member k (keys_where m) ≡ false
    unfolding keys_where lookup
    keys_where-absent [] h = refl
    keys_where-absent ((j, w) ∷ m) h = ground (arith, keys_where-absent m)

    -- A key is among them exactly when a read finds a value that passes.
    pub member-keys_where :
        (m : Dict K V)
        → IsDict m
        → member k (keys_where m) ≡ elim (lookup k m) [ none ↦ false | some v ↦ p k v ]
    unfolding keys_where lookup
    member-keys_where [] h = refl
    member-keys_where ((j, w) ∷ m) h =
        ground (arith, member-keys_where m h.1, keys_where-absent m, e.beq_iff j k)
