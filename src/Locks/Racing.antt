-- ===== src/Locks/Racing.antt =====
-- The runs of critical sections that use a shared map without its mutex.
use stealthpipe_relay.Prelude.{
  ℕ, zero, suc, true, List, [], ◌∷◌, nat_beq, Bool-cases, inl, inr, ◌≡◌, ◌≢◌, ◌⊎◌, refl, arith, ap,
}
use stealthpipe_relay.Types.{RoomRef}
use stealthpipe_relay.Locks.{
  Lock, rooms, rooms_mu, clients_mu, hosts_mu, Mode, exclusive, shared, clients_to_host,
  host_to_clients, handshake_connections, room_host, host_mu, Action, acquire, does, reads, Section,
}
use stealthpipe_relay.Locks.Sections.{actions, program}
use stealthpipe_relay.Locks.Threads.{
  System, start, set_thread, Holds, Free, acquires, uses, Reach, here, next,
}
use stealthpipe_relay.Locks.Races.{is_racy}
use stealthpipe_relay.Locks.Exclusion.{IsCollision, write_write, write_read}

-- Two goroutines with a section each.
abbrev pub two : Section → Section → ℕ → List Section
two a b zero = a ∷ []
two a b (suc zero) = b ∷ []
two a b _ = []

-- The first of two goroutines, about to write, races the second.
abbrev pub CanRace : Section → Section → Type 0
CanRace a b = (sys : System) × Reach (start (two a b)) sys × IsCollision sys 0 1

Free-at_start : (a b : Section) (mode : Mode) (l : Lock) → Free (start (two a b)) mode l
Free-at_start a b exclusive l = λ j mode m. elim m [ ]
Free-at_start a b shared l = λ j m. elim m [ ]

assigns : (ref : RoomRef) → CanRace (Section.assign_client ref) (Section.assign_client ref)
unfolding actions
assigns ref = (_, here, write_write (handshake_connections ref) (_, refl) (_, refl))

forwards : (ref : RoomRef) → CanRace (Section.assign_client ref) (Section.forward_to_client ref)
unfolding actions
forwards ref = (_, here, write_read (handshake_connections ref) (_, refl) (_, refl))

-- A goroutine that holds one mutex leaves the others free.
Holds-beside :
    (a b : Section) (i j : ℕ) (m mode : Mode) (k l : Lock) (left : List Action)
    → k ≢ l
    → Holds (set_thread (start (two a b)) i (record { held = (m, k) ∷ []; left = left }) j) mode l
    → ⊥
Holds-beside a b i j m mode k l left apart holds = elim (Bool-cases (nat_beq i j)) [
  | inl is ↦ elim (rw is at holds) [ inl e ↦ apart (ap (λ q. q.1) e) | inr nothing ↦ nothing ]
  | inr other ↦ let nothing : Holds (start (two a b) j) mode l = rw other at holds in nothing
]

Free-beside :
    (a b : Section) (i : ℕ) (m mode : Mode) (k l : Lock) (left : List Action)
    → k ≢ l
    → Free (set_thread (start (two a b)) i (record { held = (m, k) ∷ []; left = left })) mode l
Free-beside a b i m exclusive k l left apart = λ j mode. Holds-beside a b i j m mode k l left apart
Free-beside a b i m shared k l left apart = λ j. Holds-beside a b i j m exclusive k l left apart

abbrev pub taken :
    Section → Section → Mode → Lock → List Action → Mode → Lock → List Action → System
taken a b m k left mode l right =
    set_thread (set_thread (start (two a b)) 0 (record { held = (m, k) ∷ []; left = left })) 1
      (record { held = (mode, l) ∷ []; left = right })

-- The two take a mutex each.
pub Reach-taken :
    (a b : Section) (m mode : Mode) (k l : Lock) (left right : List Action)
    → k ≢ l
    → program (a ∷ []) ≡ acquire m k ∷ left
    → program (b ∷ []) ≡ acquire mode l ∷ right
    → Reach (start (two a b)) (taken a b m k left mode l right)
Reach-taken a b m mode k l left right apart e f =
    next (next here 0 (acquires m k left e (Free-at_start a b m k))) 1
      (acquires mode l right f (Free-beside a b 0 m mode k l left apart))

searches : (ref : RoomRef) → CanRace (Section.link_host ref) (Section.find_client ref)
unfolding actions
searches ref = (
  _,
  Reach-taken _ _ exclusive shared (hosts_mu ref) (clients_mu ref) _ _ (ground arith) refl refl,
  write_read (host_to_clients ref) (_, refl) (_, refl),
)

-- The cleanup after a host ranges over the map of clients under `RoomsMu`.
ends_host : (ref : RoomRef) → CanRace (Section.register_client ref) (Section.cleanup_host ref)
unfolding actions
ends_host ref = (
  _,
  next
      (next
        (Reach-taken _ _ exclusive exclusive (clients_mu ref) rooms_mu _ _ (ground arith) refl refl)
        1 (uses (reads rooms) _ refl))
      1 (uses (reads (room_host ref)) _ refl),
  write_read (clients_to_host ref) (_, refl) (_, refl),
)

-- The scan for idle rooms counts the clients of a room under `RoomsMu`.
counts :
    (ref : RoomRef) (refs : List RoomRef)
    → CanRace (Section.register_client ref) (Section.scan_idle_rooms (ref ∷ refs))
unfolding actions
counts ref refs = (
  _,
  next (Reach-taken _ _ exclusive shared (clients_mu ref) rooms_mu _ _ (ground arith) refl refl) 1
      (uses (reads rooms) _ refl),
  write_read (clients_to_host ref) (_, refl) (_, refl),
)

-- The section that gives a room its host, about to write.
joining :
    (ref : RoomRef) (s : Section) (left : List Action)
    → program (s ∷ []) ≡ does (reads (room_host ref)) ∷ left
    → CanRace (Section.join_host ref) s
unfolding actions
joining ref s left e = (
  _,
  next
      (next
        (next here 0 (
          acquires exclusive rooms_mu _ refl
            (Free-at_start (Section.join_host ref) s exclusive rooms_mu)))
        0 (uses (reads rooms) _ refl))
      0 (uses (reads (room_host ref)) _ refl),
  write_read (room_host ref) (_, refl) (_, e),
)

forwards_to_host : (ref : RoomRef) → CanRace (Section.join_host ref) (Section.forward_to_host ref)
unfolding actions
forwards_to_host ref = (
  _,
  next
      (next
        (Reach-taken _ _ exclusive exclusive rooms_mu (host_mu ref) _ _ (ground arith) refl refl) 0
        (uses (reads rooms) _ refl))
      0 (uses (reads (room_host ref)) _ refl),
  write_read (room_host ref) (_, refl) (_, refl),
)

forwards_to_nil : (ref : RoomRef) → CanRace (Section.join_host ref) (Section.forward_to_nil ref)
unfolding actions
forwards_to_nil ref = (
  _,
  next
      (next
        (Reach-taken _ _ exclusive exclusive rooms_mu (host_mu ref) _ _ (ground arith) refl refl) 0
        (uses (reads rooms) _ refl))
      0 (uses (reads (room_host ref)) _ refl),
  write_read (room_host ref) (_, refl) (_, refl),
)

-- Each of the sections that use a shared map or host without its mutex does race another: of two goroutines that go through
-- the two sections, some interleaving brings both to the same map or host, the one about to write it.
pub races :
    (s : Section) → is_racy s ≡ true → (other : Section) × (CanRace s other ⊎ CanRace other s)
unfolding actions
races (Section.cleanup_host ref) racy = (Section.register_client ref, inr (ends_host ref))
races (Section.open_client ref) racy =
    (Section.join_host ref, inr (joining ref (Section.open_client ref) _ refl))
races (Section.open_signal ref) racy =
    (Section.join_host ref, inr (joining ref (Section.open_signal ref) _ refl))
races (Section.poll_host ref) racy =
    (Section.join_host ref, inr (joining ref (Section.poll_host ref) _ refl))
races (Section.forward_to_nil ref) racy = (Section.join_host ref, inr (forwards_to_nil ref))
races (Section.forward_to_host ref) racy = (Section.join_host ref, inr (forwards_to_host ref))
races (Section.find_client ref) racy = (Section.link_host ref, inr (searches ref))
races (Section.assign_client ref) racy = (Section.assign_client ref, inl (assigns ref))
races (Section.forward_to_client ref) racy = (Section.assign_client ref, inr (forwards ref))
races (Section.scan_idle_rooms (ref ∷ refs)) racy =
    (Section.register_client ref, inr (counts ref refs))
races (Section.scan_idle_rooms []) racy = absurd (ground arith)
races _ racy = absurd (ground arith)
