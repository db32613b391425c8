-- ===== src/Locks/Exclusion.antt =====
-- Who holds a mutex exclusively, and what it is that two goroutines collide at.
use stealthpipe_relay.Prelude.{
  ℕ, List, ◌∷◌, nat_beq, nat_beq_iff, Bool-cases, inl, inr, ◌≡◌, ◌≢◌, ◌⊎◌, subst,
}
use stealthpipe_relay.Locks.{
  Lock, Mode, exclusive, shared, Shared, Use, Action, does, reads, writes, Section,
}
use stealthpipe_relay.Locks.Threads.{
  Thread, System, start, set_thread, Holds, Free, Act, acquires, releases, uses, Reach, here, next,
}

-- Nobody holds what another holds exclusively.
abbrev pub IsExclusive : System → Type 0
IsExclusive sys =
    (i j : ℕ) (mode : Mode) (l : Lock)
    → i ≢ j
    → Holds (sys i) exclusive l
    → Holds (sys j) mode l
    → ⊥

-- What a goroutine holds after an action it held before, or it was free.
Act-Holds :
    (sys : System) (k : ℕ) (t : Thread) (mode : Mode) (l : Lock)
    → Act sys k t
    → Holds t mode l
    → Holds (sys k) mode l ⊎ Free sys mode l
Act-Holds sys k t mode l (acquires m a left e free) (inl same) =
    inr (subst (λ q. Free sys q.0 q.1) same free)
Act-Holds sys k t mode l (acquires m a left e free) (inr old) = inl old
Act-Holds sys k t mode l (releases m a held left e h) old = inl (rw h (inr old))
Act-Holds sys k t mode l (uses u left e) old = inl old

pub not-Free :
    (sys : System) (i : ℕ) (mode : Mode) (l : Lock)
    → Holds (sys i) exclusive l
    → Free sys mode l
    → ⊥
not-Free sys i exclusive l holds free = free i exclusive holds
not-Free sys i shared l holds free = free i holds

set_thread-Holds :
    (sys : System) (k i : ℕ) (t : Thread) (mode : Mode) (l : Lock)
    → Act sys k t
    → Holds (set_thread sys k t i) mode l
    → Holds (sys i) mode l ⊎ ((k ≡ i) × Free sys mode l)
set_thread-Holds sys k i t mode l act holds = elim (Bool-cases (nat_beq k i)) [
  | inl is ↦
      let same = (nat_beq_iff k i).0 is in
      let held : Holds t mode l = rw is at holds in
      elim (Act-Holds sys k t mode l act held) [
        | inl old ↦ inl (subst (λ q. Holds (sys q) mode l) same old)
        | inr free ↦ inr (same, free)
      ]
  | inr other ↦ inl (rw other at holds)
]

Act-IsExclusive :
    (sys : System) (k : ℕ) (t : Thread)
    → Act sys k t
    → IsExclusive sys
    → IsExclusive (set_thread sys k t)
Act-IsExclusive sys k t act v i j mode l apart a b =
    exclusive_still (set_thread-Holds sys k i t exclusive l act a)
      (set_thread-Holds sys k j t mode l act b)
  where
    exclusive_still :
        Holds (sys i) exclusive l ⊎ ((k ≡ i) × Free sys exclusive l)
        → Holds (sys j) mode l ⊎ ((k ≡ j) × Free sys mode l)
        → ⊥
    exclusive_still (inl a') (inl b') = v i j mode l apart a' b'
    exclusive_still (inl a') (inr (e, free)) = not-Free sys i mode l a' free
    exclusive_still (inr (e, free)) (inl b') = free j mode b'
    exclusive_still (inr (e, free)) (inr (e', free')) = apart (cc)

pub Reach-IsExclusive :
    (sections : ℕ → List Section) {sys : System} → Reach (start sections) sys → IsExclusive sys
Reach-IsExclusive sections here = λ i j mode l apart a b. elim a [ ]
Reach-IsExclusive sections (next {s} {t} r i act) =
    Act-IsExclusive s i t act (Reach-IsExclusive sections r)

-- What a goroutine does next.
abbrev pub IsAbout : System → ℕ → Use → Type 0
IsAbout sys i u = (left : List Action) × ((sys i).left ≡ does u ∷ left)

-- Two goroutines are about to use the same map or host, and one of the two to write it.
pub data IsCollision (sys : System) (i j : ℕ) : Type 0 where
  write_write :
      (x : Shared) → IsAbout sys i (writes x) → IsAbout sys j (writes x) → IsCollision sys i j
  write_read :
      (x : Shared) → IsAbout sys i (writes x) → IsAbout sys j (reads x) → IsCollision sys i j
