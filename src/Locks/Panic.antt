-- ===== src/Locks/Panic.antt =====
-- The mutex of a room's host after the panic of a signal message to a room without a host:
-- `net/http` recovers the goroutine, and nothing releases the mutex.
use stealthpipe_relay.Prelude.{
  ℕ, List, [], ◌∷◌, nat_beq, nat_beq_iff, Bool-cases, ◌≡◌, ◌⊎◌, subst, inl, inr, refl, arith,
}
use stealthpipe_relay.Types.{RoomRef}
use stealthpipe_relay.Locks.Sections.{forward_to_nil_actions}
use stealthpipe_relay.Locks.{
  does, reads, room_host, Lock, host_mu, Mode, exclusive, Action, acquire, Section,
}
use stealthpipe_relay.Locks.Exclusion.{not-Free}
use stealthpipe_relay.Locks.Threads.{
  Thread, System, start, set_thread, Holds, Free, Act, acquires, releases, uses, Reach, here, next,
}

-- Goroutines of which one forwards to a host that is nil.
abbrev pub start_forwarding : (ℕ → List Section) → ℕ → RoomRef → System
start_forwarding sections i ref =
    set_thread (start sections) i (record { held = []; left = forward_to_nil_actions ref })

-- That goroutine has ended with the mutex.
abbrev HasPanicked : Thread → RoomRef → Type 0
HasPanicked t ref = (t.left ≡ []) × (t.held ≡ (exclusive, host_mu ref) ∷ [])

-- It has the mutex and comes to the host.
abbrev IsAtNil : Thread → RoomRef → Type 0
IsAtNil t ref =
    (t.left ≡ does (reads (room_host ref)) ∷ []) × (t.held ≡ (exclusive, host_mu ref) ∷ [])

abbrev Forwards : Thread → RoomRef → Type 0
Forwards t ref =
    ((t.left ≡ forward_to_nil_actions ref) × (t.held ≡ [])) ⊎ (IsAtNil t ref ⊎ HasPanicked t ref)

set_thread_self : (sys : System) (i : ℕ) (t : Thread) → set_thread sys i t i ≡ t
set_thread_self sys i t = rw ((nat_beq_iff i i).1 refl) refl

Act-HasPanicked :
    (sys : System) (i : ℕ) (t : Thread) (ref : RoomRef)
    → Act sys i t
    → HasPanicked (sys i) ref
    → HasPanicked t ref
Act-HasPanicked sys i t ref (acquires mode l left e free) (done, kept) = ground arith
Act-HasPanicked sys i t ref (releases mode l held left e h) (done, kept) = ground arith
Act-HasPanicked sys i t ref (uses u left e) (done, kept) = ground arith

Act-Forwards :
    (sys : System) (i : ℕ) (t : Thread) (ref : RoomRef)
    → Act sys i t
    → Forwards (sys i) ref
    → Forwards t ref
Act-Forwards sys i t ref (acquires mode l left e free) (inl (todo, none_held)) = ground arith
Act-Forwards sys i t ref (releases mode l held left e h) (inl (todo, none_held)) = ground arith
Act-Forwards sys i t ref (uses u left e) (inl (todo, none_held)) = ground arith
Act-Forwards sys i t ref (acquires mode l left e free) (inr (inl (todo, kept))) = ground arith
Act-Forwards sys i t ref (releases mode l held left e h) (inr (inl (todo, kept))) = ground arith
Act-Forwards sys i t ref (uses u left e) (inr (inl (todo, kept))) = ground arith
Act-Forwards sys i t ref act (inr (inr panicked)) =
    inr (inr (Act-HasPanicked sys i t ref act panicked))

Act-other :
    (sys : System) (i k : ℕ) (t : Thread) (P : Thread → Type 0)
    → Act sys k t
    → (Act sys i t → P (sys i) → P t)
    → P (sys i)
    → P (set_thread sys k t i)
Act-other sys i k t P act own p = elim (Bool-cases (nat_beq k i)) [
  | inl is ↦ let same = (nat_beq_iff k i).0 is in rw is (own (subst (λ q. Act sys q t) same act) p)
  | inr other ↦ rw other p
]

Reach-Forwards :
    (sections : ℕ → List Section) (i : ℕ) (ref : RoomRef) {sys : System}
    → Reach (start_forwarding sections i ref) sys
    → Forwards (sys i) ref
Reach-Forwards sections i ref here =
    rw
      (set_thread_self (start sections) i (record { held = []; left = forward_to_nil_actions ref }))
      (inl (refl, refl))
Reach-Forwards sections i ref (next {s} {t} r k act) =
    Act-other s i k t (λ q. Forwards q ref) act (λ own f. Act-Forwards s i t ref own f)
      (Reach-Forwards sections i ref r)

Reach-HasPanicked :
    (i : ℕ) (ref : RoomRef) {s t : System}
    → Reach s t
    → HasPanicked (s i) ref
    → HasPanicked (t i) ref
Reach-HasPanicked i ref here p = p
Reach-HasPanicked i ref (next {s} {t} r k act) p =
    Act-other s i k t (λ q. HasPanicked q ref) act (λ own f. Act-HasPanicked s i t ref own f)
      (Reach-HasPanicked i ref r p)

ended_with : (t : Thread) (ref : RoomRef) → Forwards t ref → t.left ≡ [] → HasPanicked t ref
ended_with t ref (inl (todo, none_held)) done = absurd (ground arith)
ended_with t ref (inr (inl (todo, kept))) done = absurd (ground arith)
ended_with t ref (inr (inr p)) done = p

-- Who would take the mutex does not act while another holds it.
held_stops :
    (sys : System) (i j : ℕ) (mode : Mode) (l : Lock) (left : List Action) (t : Thread)
    → Holds (sys i) exclusive l
    → (sys j).left ≡ acquire mode l ∷ left
    → Act sys j t
    → ⊥
held_stops sys i j mode l left t holds e (acquires m k rest f free) =
    let same : k ≡ l = ground arith in
    not-Free sys i m l holds (subst (λ q. Free sys m q) same free)
held_stops sys i j mode l left t holds e (releases m k held rest f h) = absurd (ground arith)
held_stops sys i j mode l left t holds e (uses u rest f) = absurd (ground arith)

-- When a goroutine forwards a signal message to a host that is nil and has panicked, the mutex of the
-- host stays taken for good: whatever the other goroutines do from then on, none of them that comes
-- to take it, to send a request to the room's host, to answer a ping or to forward, ever acts again.
pub panic_blocks_host :
    (sections : ℕ → List Section) (i j : ℕ) (ref : RoomRef) (sys later : System) (mode : Mode)
    (left : List Action) (t : Thread)
    → Reach (start_forwarding sections i ref) sys
    → (sys i).left ≡ []
    → Reach sys later
    → (later j).left ≡ acquire mode (host_mu ref) ∷ left
    → ¬ (Act later j t)
panic_blocks_host sections i j ref sys later mode left t r done r' waits act =
    let panicked = ended_with (sys i) ref (Reach-Forwards sections i ref r) done in
    let kept = Reach-HasPanicked i ref r' panicked in
    let holds : Holds (later i) exclusive (host_mu ref) = rw kept.1 (inl refl) in
    held_stops later i j mode (host_mu ref) left t holds waits act
