-- ===== src/Locks/Threads.antt =====
-- Goroutines under Go's mutexes: each has the locks it holds and the actions it has left.
use stealthpipe_relay.Prelude.{ℕ, List, [], ◌∷◌, if◌then◌else◌, nat_beq, ◌≡◌, In}
use stealthpipe_relay.Locks.{
  Lock, Mode, exclusive, shared, Use, Action, acquire, release, does, Section,
}
use stealthpipe_relay.Locks.Sections.{program}

abbrev pub Held : Type 0
Held = List (Mode × Lock)

pub record Thread : Type 0 where
  pub held : Held
  pub left : List Action

-- Any number of goroutines, by their numbers.
abbrev pub System : Type 0
System = ℕ → Thread

abbrev pub start : (ℕ → List Section) → System
start sections i = record { held = []; left = program (sections i) }

abbrev pub set_thread : System → ℕ → Thread → System
set_thread sys i t j = if nat_beq i j then t else sys j

abbrev pub Holds : Thread → Mode → Lock → Type 0
Holds t mode l = In (mode, l) t.held

-- That no goroutine's hold, be it one's own, keeps a lock from being taken.
abbrev pub Free : System → Mode → Lock → Type 0
Free sys exclusive l = (j : ℕ) (mode : Mode) → Holds (sys j) mode l → ⊥
Free sys shared l = (j : ℕ) → Holds (sys j) exclusive l → ⊥

-- The hold that a release gives up is the last one taken.
pub data Act (sys : System) (i : ℕ) : Thread → Type 0 where
  acquires :
      (mode : Mode) (l : Lock) (left : List Action)
      → (sys i).left ≡ acquire mode l ∷ left
      → Free sys mode l
      → Act sys i (record { held = (mode, l) ∷ (sys i).held; left = left })
  releases :
      (mode : Mode) (l : Lock) (held : Held) (left : List Action)
      → (sys i).left ≡ release l ∷ left
      → (sys i).held ≡ (mode, l) ∷ held
      → Act sys i (record { held = held; left = left })
  uses :
      (u : Use) (left : List Action)
      → (sys i).left ≡ does u ∷ left
      → Act sys i (record { held = (sys i).held; left = left })

-- Any interleaving: at each step some goroutine acts.
pub data Reach (sys : System) : System → Type 0 where
  here : Reach sys sys
  next :
      {s : System} {t : Thread} → Reach sys s → (i : ℕ) → Act s i t → Reach sys (set_thread s i t)
