-- ===== src/Examples/Locking.antt =====
-- Goroutines and their mutexes.
use stealthpipe_relay.Prelude.{
  ℕ, zero, suc, List, [], ◌∷◌, ◌⊎◌, refl, arith, nat_beq, Bool-cases, inl, inr,
}
use stealthpipe_relay.Locks.{
  does, reads, room_host, Action, Mode, host_mu, rooms_mu, clients_mu, exclusive, Section,
}
use stealthpipe_relay.Locks.Sections.{actions, program}
use stealthpipe_relay.Locks.Threads.{
  Thread, System, start, Act, Reach, set_thread, Holds, here, next, acquires, uses,
}
use stealthpipe_relay.Locks.Deadlock.{IsDone, MayWait, no_deadlock}
use stealthpipe_relay.Locks.Order.{AreSafe}
use stealthpipe_relay.Locks.Covered.{IsConflict, no_race}
use stealthpipe_relay.Locks.Panic.{start_forwarding, panic_blocks_host}
use stealthpipe_relay.Locks.Racing.{two, taken, Reach-taken, CanRace, races}

abbrev after_first : List Action → List Action
after_first [] = []
after_first (a ∷ left) = left

-- A host connection is being linked in the room, and another connection of the room ends: the one
-- holds the mutex that the other will wait for.
abbrev linking_and_ending : System
linking_and_ending =
    taken (Section.link_client 0) (Section.cleanup_other 0) exclusive (clients_mu 0)
      (after_first (program (Section.link_client 0 ∷ []))) exclusive rooms_mu
      (after_first (program (Section.cleanup_other 0 ∷ [])))

linking_and_ending-Reach :
    Reach (start (two (Section.link_client 0) (Section.cleanup_other 0))) linking_and_ending
unfolding actions
linking_and_ending-Reach =
    Reach-taken _ _ exclusive exclusive (clients_mu 0) rooms_mu _ _ (ground arith) refl refl

both-AreSafe : (k : ℕ) → AreSafe (two (Section.link_client 0) (Section.cleanup_other 0) k)
both-AreSafe zero = (refl, tt)
both-AreSafe (suc zero) = (refl, tt)
both-AreSafe (suc (suc k)) = tt

no_deadlock_example :
    (¬ ((j : ℕ) → ¬ (IsDone linking_and_ending j) → MayWait linking_and_ending j))
    × (¬ (MayWait linking_and_ending 1) → (t : Thread) × Act linking_and_ending 1 t)
unfolding actions
no_deadlock_example =
    no_deadlock (two (Section.link_client 0) (Section.cleanup_other 0)) linking_and_ending 1
      both-AreSafe linking_and_ending-Reach (λ e. ground arith)

no_race_example : ¬ (IsConflict linking_and_ending 0 1)
no_race_example =
    no_race (two (Section.link_client 0) (Section.cleanup_other 0)) linking_and_ending 0 1
      linking_and_ending-Reach (λ e. ground arith)

races_example :
    (other : Section) × (CanRace (Section.cleanup_host 0) other
      ⊎ CanRace other (Section.cleanup_host 0))
races_example = races (Section.cleanup_host 0) refl

-- The goroutine 0 has panicked in the room 0, and the goroutine 1 brings a client's request to the host.
abbrev requesting : ℕ → List Section
requesting k = Section.request_host 0 ∷ []

abbrev panicked : System
panicked =
    set_thread
      (set_thread (start_forwarding requesting 0 0) 0
        (record { held = (exclusive, host_mu 0) ∷ []; left = does (reads (room_host 0)) ∷ [] }))
      0 (record { held = (exclusive, host_mu 0) ∷ []; left = [] })

none_held : (j : ℕ) (mode : Mode) → Holds (start_forwarding requesting 0 0 j) mode (host_mu 0) → ⊥
none_held j mode m = elim (Bool-cases (nat_beq 0 j)) [
  | inl is ↦
      let nothing : Holds (record { held = []; left = [] }) mode (host_mu 0) = rw is at m in
      elim nothing [ ]
  | inr other ↦
      let nothing : Holds (record { held = []; left = [] }) mode (host_mu 0) = rw other at m in
      elim nothing [ ]
]

panicked-Reach : Reach (start_forwarding requesting 0 0) panicked
panicked-Reach =
    next
      (next here 0
        (acquires exclusive (host_mu 0) (does (reads (room_host 0)) ∷ []) refl none_held))
      0 (uses (reads (room_host 0)) [] refl)

panic_blocks_host_example : ¬ (
    Act panicked 1 (record {
      held = (exclusive, host_mu 0) ∷ [];
      left = after_first (program (Section.request_host 0 ∷ []));
    }))
unfolding actions
panic_blocks_host_example =
    panic_blocks_host requesting 0 1 0 panicked panicked exclusive
      (after_first (program (Section.request_host 0 ∷ []))) _ panicked-Reach refl here refl
