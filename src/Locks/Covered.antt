-- ===== src/Locks/Covered.antt =====
-- Accesses of what goroutines share, under all critical sections: all writes take the mutex of what
-- they write, and all reads of some maps do.
use stealthpipe_relay.Prelude.{
  ℕ, false, List, [], ◌∷◌, ◌++◌, nat_beq, Bool-cases, Option, none, some, inl, inr, ◌≡◌, ◌≢◌, ◌⊎◌,
}
use stealthpipe_relay.Locks.{
  send, respond, sleep, Lock, Mode, exclusive, shared, Shared, Use, Action, acquire, release, does,
  reads, writes, Section,
}
use stealthpipe_relay.Locks.Sections.{actions, program}
use stealthpipe_relay.Locks.Threads.{
  Held, Thread, System, start, Act, acquires, releases, uses, Reach, here, next,
}
use stealthpipe_relay.Locks.Order.{Disciplined, actions-Disciplined}
use stealthpipe_relay.Locks.Races.{guard, IsGuarded}
use stealthpipe_relay.Locks.Sections.{reads_hosts, reads_clients, prunes}
use stealthpipe_relay.Locks.{
  rooms, recently_deleted, used_salts, requested_connections, rooms_mu, host_mu,
}
use stealthpipe_relay.Types.{RoomRef}
use stealthpipe_relay.Prelude.{Bool, true, false, In, In-append_left, refl, arith}
use stealthpipe_relay.Locks.Order.{lets_go}
use stealthpipe_relay.Locks.Exclusion.{IsExclusive, Reach-IsExclusive, IsAbout}

-- The maps whose reads take their mutex everywhere.
abbrev pub is_read_locked : Shared → Bool
is_read_locked rooms = true
is_read_locked recently_deleted = true
is_read_locked used_salts = true
is_read_locked (requested_connections ref) = true
is_read_locked _ = false

abbrev IsWriteCovered : Held → Option Lock → Type 0
IsWriteCovered held none = Unit
IsWriteCovered held (some l) = In (exclusive, l) held

abbrev IsReadCovered : Bool → Held → Option Lock → Type 0
IsReadCovered false held o = Unit
IsReadCovered true held none = ⊥
IsReadCovered true held (some l) = In (exclusive, l) held ⊎ In (shared, l) held

abbrev Covers : Held → Use → Type 0
Covers held (writes x) = IsWriteCovered held (guard x)
Covers held (reads x) = IsReadCovered (is_read_locked x) held (guard x)
Covers held _ = Unit

IsWriteCovered-append :
    (held extra : Held) (o : Option Lock) → IsWriteCovered held o → IsWriteCovered (held ++ extra) o
IsWriteCovered-append held extra none c = tt
IsWriteCovered-append held extra (some l) c = In-append_left (exclusive, l) held extra c

IsReadCovered-append :
    (b : Bool) (held extra : Held) (o : Option Lock)
    → IsReadCovered b held o
    → IsReadCovered b (held ++ extra) o
IsReadCovered-append false held extra o c = tt
IsReadCovered-append true held extra none c = c
IsReadCovered-append true held extra (some l) (inl c) =
    inl (In-append_left (exclusive, l) held extra c)
IsReadCovered-append true held extra (some l) (inr c) =
    inr (In-append_left (shared, l) held extra c)

Covers-append : (held extra : Held) (u : Use) → Covers held u → Covers (held ++ extra) u
Covers-append held extra (writes x) c = IsWriteCovered-append held extra (guard x) c
Covers-append held extra (reads x) c =
    IsReadCovered-append (is_read_locked x) held extra (guard x) c
Covers-append held extra send c = tt
Covers-append held extra respond c = tt
Covers-append held extra sleep c = tt

-- What a section covers by itself it covers beside other holds.
IsGuarded-append :
    (held extra : Held) (todo bs : List Action)
    → Disciplined held todo
    → IsGuarded Covers held todo
    → IsGuarded Covers extra bs
    → IsGuarded Covers (held ++ extra) (todo ++ bs)
IsGuarded-append [] extra [] bs d g e = e
IsGuarded-append (h ∷ held) extra [] bs d g e = absurd d
IsGuarded-append [] extra (acquire mode l ∷ todo) bs d g e =
    IsGuarded-append ((mode, l) ∷ []) extra todo bs d.1 g e
IsGuarded-append (h ∷ held) extra (acquire mode l ∷ todo) bs d g e =
    IsGuarded-append ((mode, l) ∷ h ∷ held) extra todo bs d.1 g e
IsGuarded-append [] extra (release l ∷ todo) bs d g e = absurd d
IsGuarded-append ((mode, k) ∷ held) extra (release l ∷ todo) bs d g e =
    IsGuarded-append held extra todo bs d.1 g e
IsGuarded-append [] extra (does u ∷ todo) bs d g e =
    (Covers-append [] extra u g.0, IsGuarded-append [] extra todo bs d g.1 e)
IsGuarded-append (h ∷ held) extra (does u ∷ todo) bs d g e =
    (Covers-append (h ∷ held) extra u g.0, IsGuarded-append (h ∷ held) extra todo bs d g.1 e)

module _ (mode : Mode) where
  reads_clients-IsCovered :
      (refs : List RoomRef)
      → IsGuarded Covers ((mode, rooms_mu) ∷ []) (reads_clients refs ++ release rooms_mu ∷ [])
  reads_clients-IsCovered [] = tt
  reads_clients-IsCovered (ref ∷ refs) = (tt, (tt, reads_clients-IsCovered refs))

  reads_hosts-IsCovered :
      (refs : List RoomRef)
      → IsGuarded Covers ((mode, rooms_mu) ∷ []) (reads_hosts refs ++ release rooms_mu ∷ [])
  reads_hosts-IsCovered [] = tt
  reads_hosts-IsCovered (ref ∷ refs) = (tt, reads_hosts-IsCovered refs)

prunes-IsCovered :
    (refs : List RoomRef)
    → IsGuarded Covers ((exclusive, rooms_mu) ∷ []) (prunes refs ++ release rooms_mu ∷ [])
prunes-IsCovered [] = tt
prunes-IsCovered (ref ∷ refs) = (inl (inl refl), (tt, (inl refl, prunes-IsCovered refs)))

actions-IsCovered : (s : Section) → IsGuarded Covers [] (actions s)
unfolding actions
actions-IsCovered (Section.scan_idle_rooms refs) =
    (inr (inl refl), reads_clients-IsCovered shared refs)
actions-IsCovered (Section.scan_rooms refs) = (inr (inl refl), reads_hosts-IsCovered shared refs)
actions-IsCovered (Section.prune_rooms refs) = prunes-IsCovered refs
actions-IsCovered _ = ground arith

-- The section that does not release its mutex.
keeps_host_mu :
    (s : Section) → lets_go s ≡ false → (ref : RoomRef) × (s ≡ Section.forward_to_nil ref)
keeps_host_mu (Section.forward_to_nil ref) e = (ref, refl)
keeps_host_mu _ e = absurd (ground arith)

program-IsCovered :
    (extra : Held) (sections : List Section) → IsGuarded Covers extra (program sections)
unfolding actions
program-IsCovered extra [] = tt
program-IsCovered extra (s ∷ ss) = elim (Bool-cases (lets_go s)) [
  | inl safe ↦
      IsGuarded-append [] extra (actions s) (program ss) (actions-Disciplined s safe)
        (actions-IsCovered s) (program-IsCovered extra ss)
  | inr panics ↦
      let (ref, is) = keeps_host_mu s panics in
      rw is (tt, program-IsCovered ((exclusive, host_mu ref) ∷ extra) ss)
]

abbrev AreCovered : System → Type 0
AreCovered sys = (i : ℕ) → IsGuarded Covers (sys i).held (sys i).left

Act-IsCovered :
    (sys : System) (i : ℕ) (t : Thread)
    → Act sys i t
    → IsGuarded Covers (sys i).held (sys i).left
    → IsGuarded Covers t.held t.left
Act-IsCovered sys i t (acquires mode l left e free) g =
    let g' : IsGuarded Covers (sys i).held (acquire mode l ∷ left) = rw e at g in g'
Act-IsCovered sys i t (releases mode l held left e h) g =
    let g' : IsGuarded Covers ((mode, l) ∷ held) (release l ∷ left) = rw (e, h) at g in g'
Act-IsCovered sys i t (uses u left e) g =
    let g' : IsGuarded Covers (sys i).held (does u ∷ left) = rw e at g in g'.1

Reach-AreCovered :
    (sections : ℕ → List Section) {sys : System} → Reach (start sections) sys → AreCovered sys
Reach-AreCovered sections here = λ i. program-IsCovered [] (sections i)
Reach-AreCovered sections (next {s} {t} r i act) = λ j.
    let v = Reach-AreCovered sections r in
    elim (Bool-cases (nat_beq i j)) [
      | inl same ↦ rw same (Act-IsCovered s i t act (v i))
      | inr other ↦ rw other (v j)
    ]

about_covered :
    (sys : System) (i : ℕ) (u : Use) → AreCovered sys → IsAbout sys i u → Covers (sys i).held u
about_covered sys i u v (left, e) =
    let w : IsGuarded Covers (sys i).held (sys i).left = v i in
    let g : IsGuarded Covers (sys i).held (does u ∷ left) = rw e at w in g.0

-- Two goroutines are about to write the same map or host that has a mutex, or the one to write and
-- the other to read a map whose reads take its mutex.
pub data IsConflict (sys : System) (i j : ℕ) : Type 0 where
  both_write :
      (x : Shared) (l : Lock)
      → guard x ≡ some l
      → IsAbout sys i (writes x)
      → IsAbout sys j (writes x)
      → IsConflict sys i j
  one_reads :
      (x : Shared)
      → is_read_locked x ≡ true
      → IsAbout sys i (writes x)
      → IsAbout sys j (reads x)
      → IsConflict sys i j

excluded :
    (sys : System) (i j : ℕ) (o : Option Lock)
    → IsExclusive sys
    → i ≢ j
    → IsWriteCovered (sys i).held o
    → IsReadCovered true (sys j).held o
    → ⊥
excluded sys i j none v apart a b = b
excluded sys i j (some l) v apart a (inl b) = v i j exclusive l apart a b
excluded sys i j (some l) v apart a (inr b) = v i j shared l apart a b

-- However many goroutines go through whatever critical sections, also those that panic, in any
-- interleaving: no two of them are ever both about to write the host of the same room or the same
-- map, other than the map of handshake connections, which has no mutex; and none is about to read
-- the map of rooms, of recently deleted rooms, of used salts or of a room's requests while another is
-- about to write it.
pub no_race :
    (sections : ℕ → List Section) (sys : System) (i j : ℕ)
    → Reach (start sections) sys
    → i ≢ j
    → ¬ (IsConflict sys i j)
no_race sections sys i j r apart (both_write x l guarded a b) =
    let v = Reach-AreCovered sections r in
    let mine : In (exclusive, l) (sys i).held =
      rw guarded at (about_covered sys i (writes x) v a) in
    let yours : In (exclusive, l) (sys j).held =
      rw guarded at (about_covered sys j (writes x) v b) in
    Reach-IsExclusive sections r i j exclusive l apart mine yours
no_race sections sys i j r apart (one_reads x locked a b) =
    let v = Reach-AreCovered sections r in
    excluded sys i j (guard x) (Reach-IsExclusive sections r) apart
      (about_covered sys i (writes x) v a) (rw locked at (about_covered sys j (reads x) v b))
