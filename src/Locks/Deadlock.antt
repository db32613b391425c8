-- ===== src/Locks/Deadlock.antt =====
-- Deadlocks of goroutines that go through the critical sections.
use stealthpipe_relay.Prelude.{
  ℕ, zero, suc, ◌+◌, ◌≤◌, ◌<◌, List, [], ◌∷◌, All, In, nat_beq, Bool-cases, inl, inr, ◌≡◌, ◌≢◌,
  refl, arith, ap, ◌∙◌,
}
use stealthpipe_relay.Locks.{
  Lock, Mode, exclusive, shared, Use, Action, acquire, release, does, Section,
}
use stealthpipe_relay.Locks.Threads.{
  Held, Thread, System, start, set_thread, Holds, Free, Act, acquires, releases, uses, Reach, here,
  next,
}
use stealthpipe_relay.Locks.Order.{rank, Disciplined, AreSafe, program-Disciplined}

abbrev pub IsOrdered : System → Type 0
IsOrdered sys = (i : ℕ) → Disciplined (sys i).held (sys i).left

acquired :
    (held : Held) (mode : Mode) (l : Lock) (left : List Action)
    → Disciplined held (acquire mode l ∷ left)
    → All (λ h. rank h.1 < rank l) held × Disciplined ((mode, l) ∷ held) left
acquired [] mode l left d = d
acquired (h ∷ held) mode l left d = d

used :
    (held : Held) (u : Use) (left : List Action)
    → Disciplined held (does u ∷ left)
    → Disciplined held left
used [] u left d = d
used (h ∷ held) u left d = d

-- What a goroutine does keeps its own order.
Act-Disciplined :
    (sys : System) (i : ℕ) (t : Thread)
    → Act sys i t
    → Disciplined (sys i).held (sys i).left
    → Disciplined t.held t.left
Act-Disciplined sys i t (acquires mode l left e free) d =
    (acquired (sys i).held mode l left (rw e at d)).1
Act-Disciplined sys i t (releases mode l held left e h) d =
    let d' : Disciplined ((mode, l) ∷ held) (release l ∷ left) = rw (e, h) at d in d'.1
Act-Disciplined sys i t (uses u left e) d = used (sys i).held u left (rw e at d)

set_thread-IsOrdered :
    (sys : System) (i : ℕ) (t : Thread)
    → Disciplined t.held t.left
    → IsOrdered sys
    → IsOrdered (set_thread sys i t)
set_thread-IsOrdered sys i t d v j = elim (Bool-cases (nat_beq i j)) [
  | inl same ↦ rw same d
  | inr other ↦ rw other (v j)
]

pub Reach-IsOrdered :
    (sections : ℕ → List Section) {sys : System}
    → ((k : ℕ) → AreSafe (sections k))
    → Reach (start sections) sys
    → IsOrdered sys
Reach-IsOrdered sections safe here = λ i. program-Disciplined (sections i) (safe i)
Reach-IsOrdered sections safe (next {s} {t} r i act) =
    let v = Reach-IsOrdered sections safe r in
    set_thread-IsOrdered s i t (Act-Disciplined s i t act (v i)) v

-- A goroutine may wait if what it does next is to take a mutex that some goroutine holds in any
-- mode, itself included. It never waits otherwise: Go's `RLock` waits for a holder, or for a
-- `Lock` that waits for one.
pub record MayWait (sys : System) (i : ℕ) : Type 0 where
  pub mode : Mode
  pub lock : Lock
  pub left : List Action
  pub takes : (sys i).left ≡ acquire mode lock ∷ left
  pub holder : ℕ
  pub held_as : Mode
  pub holds : Holds (sys holder) held_as lock

abbrev pub IsDone : System → ℕ → Type 0
IsDone sys i = (sys i).left ≡ []

rank_below :
    (mode : Mode) (l k : Lock) (held : Held)
    → In (mode, l) held
    → All (λ h. rank h.1 < rank k) held
    → rank l < rank k
rank_below mode l k [] m below = elim m [ ]
rank_below mode l k (h ∷ held) (inl e) (below, rest) =
    let same : rank h.1 ≡ rank l = ap (λ q. rank q.1) e in rw (← same) below
rank_below mode l k (h ∷ held) (inr m) (below, rest) = rank_below mode l k held m rest

rank_small : (l : Lock) → rank l < 2
rank_small _ = ground arith

holder_not_done :
    (mode : Mode) (l : Lock) (held : Held) (left : List Action)
    → Disciplined held left
    → In (mode, l) held
    → left ≢ []
holder_not_done mode l [] left d m e = elim m [ ]
holder_not_done mode l (h ∷ held) left d m e = rw e at d

-- Where all that are not done may wait, each wait leads to one for a mutex above.
waits_up :
    (sys : System) (fuel i : ℕ) (mode : Mode) (l : Lock)
    → IsOrdered sys
    → ((j : ℕ) → ¬ (IsDone sys j) → MayWait sys j)
    → Holds (sys i) mode l
    → 2 ≤ rank l + fuel
    → ⊥
waits_up sys zero i mode l v all m enough = omega (arith, rank_small l)
waits_up sys (suc fuel) i mode l v all m enough =
    let w = all i (holder_not_done mode l (sys i).held (sys i).left (v i) m) in
    let d = acquired (sys i).held w.mode w.lock w.left (rw w.takes at (v i)) in
    let above = rank_below mode l w.lock (sys i).held m d.0 in
    waits_up sys fuel w.holder w.held_as w.lock v all w.holds (omega arith)

-- Nobody else holds what a goroutine takes that does not wait.
Free-unless_waiting :
    (sys : System) (i : ℕ) (mode : Mode) (l : Lock) (left : List Action)
    → (sys i).left ≡ acquire mode l ∷ left
    → ¬ (MayWait sys i)
    → Free sys mode l
Free-unless_waiting sys i exclusive l left e runs = λ j held holds. runs (record {
  mode = exclusive;
  lock = l;
  left = left;
  takes = e;
  holder = j;
  held_as = held;
  holds = holds;
})
Free-unless_waiting sys i shared l left e runs = λ j holds. runs (record {
  mode = shared;
  lock = l;
  left = left;
  takes = e;
  holder = j;
  held_as = exclusive;
  holds = holds;
})

acts_with :
    (sys : System) (i : ℕ) (held : Held) (left : List Action)
    → (sys i).held ≡ held
    → (sys i).left ≡ left
    → Disciplined held left
    → left ≢ []
    → ¬ (MayWait sys i)
    → (t : Thread) × Act sys i t
acts_with sys i held [] h e d busy runs = absurd (busy refl)
acts_with sys i held (acquire mode l ∷ left) h e d busy runs =
    (_, acquires mode l left e (Free-unless_waiting sys i mode l left e runs))
acts_with sys i [] (release l ∷ left) h e d busy runs = absurd d
acts_with sys i ((mode, k) ∷ held) (release l ∷ left) h e d busy runs =
    (_, releases mode l held left e (h ∙ ap (λ q. (mode, q) ∷ held) d.0))
acts_with sys i held (does u ∷ left) h e d busy runs = (_, uses u left e)

-- However many goroutines go through critical sections, in any interleaving, as long as none of them
-- forwards a signal message to a host that is nil: a goroutine that is not done and does not wait for
-- a mutex can act; and while one is not done, not all that are not done wait, in whatever order Go
-- serves those that do.
pub no_deadlock :
    (sections : ℕ → List Section) (sys : System) (i : ℕ)
    → ((k : ℕ) → AreSafe (sections k))
    → Reach (start sections) sys
    → ¬ (IsDone sys i)
    → (¬ ((j : ℕ) → ¬ (IsDone sys j) → MayWait sys j))
      × (¬ (MayWait sys i) → (t : Thread) × Act sys i t)
no_deadlock sections sys i safe r busy = (
  λ all.
      let w = all i busy in
      waits_up sys 2 w.holder w.held_as w.lock (Reach-IsOrdered sections safe r) all w.holds
        (omega arith),
  λ runs. acts_with sys i _ _ refl refl (Reach-IsOrdered sections safe r i) busy runs,
)
