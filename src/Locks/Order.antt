-- ===== src/Locks/Order.antt =====
-- The order in which the critical sections take mutexes.
use stealthpipe_relay.Prelude.{
  ℕ, Bool, true, false, ◌<◌, List, [], ◌∷◌, ◌++◌, All, ◌≡◌, refl, arith,
}
use stealthpipe_relay.Types.{RoomRef}
use stealthpipe_relay.Locks.{
  Lock, rooms_mu, recently_deleted_mu, used_salts_mu, requested_mu, clients_mu, hosts_mu, host_mu,
  Mode, Action, acquire, release, does, Section,
}
use stealthpipe_relay.Locks.Sections.{actions, reads_clients, reads_hosts, prunes, program}
use stealthpipe_relay.Locks.Threads.{Held}

-- Under `RoomsMu` another mutex may be taken, under any other none.
abbrev pub rank : Lock → ℕ
rank rooms_mu = 0
rank recently_deleted_mu = 1
rank used_salts_mu = 1
rank (requested_mu ref) = 1
rank (clients_mu ref) = 1
rank (hosts_mu ref) = 1
rank (host_mu ref) = 1

-- Each mutex is taken above all that are held, only the last one taken is released, and none is held
-- at the end.
abbrev pub Disciplined : Held → List Action → Type 0
Disciplined [] [] = Unit
Disciplined (h ∷ held) [] = ⊥
Disciplined held (acquire mode l ∷ todo) =
    All (λ h. rank h.1 < rank l) held × Disciplined ((mode, l) ∷ held) todo
Disciplined [] (release l ∷ todo) = ⊥
Disciplined ((mode, k) ∷ held) (release l ∷ todo) = (k ≡ l) × Disciplined held todo
Disciplined held (does u ∷ todo) = Disciplined held todo

Disciplined-append :
    (held : Held) (todo bs : List Action)
    → Disciplined held todo
    → Disciplined [] bs
    → Disciplined held (todo ++ bs)
Disciplined-append [] [] bs d e = e
Disciplined-append [] (acquire mode l ∷ todo) bs d e =
    (d.0, Disciplined-append ((mode, l) ∷ []) todo bs d.1 e)
Disciplined-append [] (does u ∷ todo) bs d e = Disciplined-append [] todo bs d e
Disciplined-append [] (release l ∷ todo) bs d e = absurd d
Disciplined-append (h ∷ held) [] bs d e = absurd d
Disciplined-append (h ∷ held) (acquire mode l ∷ todo) bs d e =
    (d.0, Disciplined-append ((mode, l) ∷ h ∷ held) todo bs d.1 e)
Disciplined-append ((mode, k) ∷ held) (release l ∷ todo) bs d e =
    (d.0, Disciplined-append held todo bs d.1 e)
Disciplined-append (h ∷ held) (does u ∷ todo) bs d e = Disciplined-append (h ∷ held) todo bs d e

Disciplined-reads_clients :
    (mode : Mode) (l : Lock) (refs : List RoomRef) (todo : List Action)
    → Disciplined ((mode, l) ∷ []) todo
    → Disciplined ((mode, l) ∷ []) (reads_clients refs ++ todo)
Disciplined-reads_clients mode l [] todo d = d
Disciplined-reads_clients mode l (ref ∷ refs) todo d = Disciplined-reads_clients mode l refs todo d

Disciplined-reads_hosts :
    (mode : Mode) (l : Lock) (refs : List RoomRef) (todo : List Action)
    → Disciplined ((mode, l) ∷ []) todo
    → Disciplined ((mode, l) ∷ []) (reads_hosts refs ++ todo)
Disciplined-reads_hosts mode l [] todo d = d
Disciplined-reads_hosts mode l (ref ∷ refs) todo d = Disciplined-reads_hosts mode l refs todo d

Disciplined-prunes :
    (mode : Mode) (l : Lock) (refs : List RoomRef) (todo : List Action)
    → Disciplined ((mode, l) ∷ []) todo
    → Disciplined ((mode, l) ∷ []) (prunes refs ++ todo)
Disciplined-prunes mode l [] todo d = d
Disciplined-prunes mode l (ref ∷ refs) todo d = Disciplined-prunes mode l refs todo d

-- A section releases what it takes, unless it forwards to a host that is nil.
abbrev pub lets_go : Section → Bool
lets_go (Section.forward_to_nil ref) = false
lets_go _ = true

-- Each critical section that releases what it takes starts and ends without a mutex, and takes another
-- only under `RoomsMu`.
pub actions-Disciplined : (s : Section) → lets_go s ≡ true → Disciplined [] (actions s)
unfolding actions
actions-Disciplined (Section.scan_idle_rooms refs) safe =
    (tt, Disciplined-reads_clients _ _ refs _ (refl, tt))
actions-Disciplined (Section.scan_rooms refs) safe =
    (tt, Disciplined-reads_hosts _ _ refs _ (refl, tt))
actions-Disciplined (Section.prune_rooms refs) safe = (tt, Disciplined-prunes _ _ refs _ (refl, tt))
actions-Disciplined _ safe = ground arith

abbrev pub AreSafe : List Section → Type 0
AreSafe = All (λ s. lets_go s ≡ true)

pub program-Disciplined :
    (sections : List Section) → AreSafe sections → Disciplined [] (program sections)
program-Disciplined [] safe = tt
program-Disciplined (s ∷ ss) (safe, rest) =
    Disciplined-append [] (actions s) (program ss) (actions-Disciplined s safe)
      (program-Disciplined ss rest)
