-- ===== src/Locks/Races.antt =====
-- Which of the shared maps are read and written under their mutexes.
use stealthpipe_relay.Prelude.{
  Bool, true, false, not, List, [], ◌∷◌, In, Option, none, some, ◌≡◌, ◌⊎◌, ◌↔◌, arith,
}
use stealthpipe_relay.Types.{RoomRef}
use stealthpipe_relay.Prelude.{refl, ◌++◌, inl, inr}
use stealthpipe_relay.Locks.{Mode}
use stealthpipe_relay.Locks.{
  Lock, rooms_mu, recently_deleted_mu, used_salts_mu, requested_mu, clients_mu, hosts_mu, exclusive,
  shared, Shared, rooms, recently_deleted, used_salts, requested_connections, clients_to_host,
  host_to_clients, handshake_connections, room_host, Use, Action, acquire, release, does, reads,
  writes, Section,
}
use stealthpipe_relay.Locks.Sections.{actions, reads_hosts, prunes}
use stealthpipe_relay.Locks.Threads.{Held}

-- The mutex that is meant to guard a map, by the names of both; the map of handshake connections has
-- none. The host of a room is written under `RoomsMu`.
abbrev pub guard : Shared → Option Lock
guard rooms = some rooms_mu
guard recently_deleted = some recently_deleted_mu
guard used_salts = some used_salts_mu
guard (requested_connections ref) = some (requested_mu ref)
guard (clients_to_host ref) = some (clients_mu ref)
guard (host_to_clients ref) = some (hosts_mu ref)
guard (handshake_connections ref) = none
guard (room_host ref) = some rooms_mu

abbrev pub HoldsGuard : Held → Option Lock → Use → Type 0
HoldsGuard held none u = ⊥
HoldsGuard held (some l) (writes x) = In (exclusive, l) held
HoldsGuard held (some l) _ = In (exclusive, l) held ⊎ In (shared, l) held

-- A use of a map holds its mutex, for a write exclusively.
abbrev pub Guards : Held → Use → Type 0
Guards held (reads x) = HoldsGuard held (guard x) (reads x)
Guards held (writes x) = HoldsGuard held (guard x) (writes x)
Guards held _ = Unit

abbrev pub rest_held : Held → Held
rest_held [] = []
rest_held (h ∷ held) = held

-- Each use of a list of actions meets a condition on what is held then.
abbrev pub IsGuarded : (Held → Use → Type 0) → Held → List Action → Type 0
IsGuarded P held [] = Unit
IsGuarded P held (acquire mode l ∷ left) = IsGuarded P ((mode, l) ∷ held) left
IsGuarded P held (release l ∷ left) = IsGuarded P (rest_held held) left
IsGuarded P held (does u ∷ left) = P held u × IsGuarded P held left

abbrev is_none_listed : List RoomRef → Bool
is_none_listed [] = true
is_none_listed (ref ∷ refs) = false

-- `handleCleanup` ranges over the clients of a room under `RoomsMu` only, `CleanIdleRooms` counts
-- them under the same, `handleHostToRelayGameConnection` looks into the one map under the mutex
-- of the other, and no mutex guards the handshake connections. The handlers of clients look at the
-- host of their room without `RoomsMu`.
abbrev pub is_racy : Section → Bool
is_racy (Section.cleanup_host ref) = true
is_racy (Section.find_client ref) = true
is_racy (Section.open_client ref) = true
is_racy (Section.open_signal ref) = true
is_racy (Section.poll_host ref) = true
is_racy (Section.forward_to_host ref) = true
is_racy (Section.forward_to_nil ref) = true
is_racy (Section.assign_client ref) = true
is_racy (Section.forward_to_client ref) = true
is_racy (Section.scan_idle_rooms refs) = not (is_none_listed refs)
is_racy _ = false

reads_hosts-IsGuarded :
    (mode : Mode) (refs : List RoomRef)
    → IsGuarded Guards ((mode, rooms_mu) ∷ []) (reads_hosts refs ++ release rooms_mu ∷ [])
reads_hosts-IsGuarded mode [] = tt
reads_hosts-IsGuarded exclusive (ref ∷ refs) =
    (inl (inl refl), reads_hosts-IsGuarded exclusive refs)
reads_hosts-IsGuarded shared (ref ∷ refs) = (inr (inl refl), reads_hosts-IsGuarded shared refs)

prunes-IsGuarded :
    (refs : List RoomRef)
    → IsGuarded Guards ((exclusive, rooms_mu) ∷ []) (prunes refs ++ release rooms_mu ∷ [])
prunes-IsGuarded [] = tt
prunes-IsGuarded (ref ∷ refs) =
    (inl (inl refl), (inl (inl refl), (inl refl, prunes-IsGuarded refs)))

-- The critical sections that use what is shared without its mutex are exactly these: the cleanup
-- after a host, the search of a host connection for its client, both uses of the handshake
-- connections, what the handlers of clients read of the host of their room, and the scan for idle
-- rooms when it comes to a room.
pub actions-IsGuarded : (s : Section) → IsGuarded Guards [] (actions s) ↔ (is_racy s ≡ false)
unfolding actions
actions-IsGuarded (Section.scan_idle_rooms []) = ground arith
actions-IsGuarded (Section.scan_rooms refs) =
    (λ g. refl, λ e. (inr (inl refl), reads_hosts-IsGuarded shared refs))
actions-IsGuarded (Section.prune_rooms refs) = (λ g. refl, λ e. prunes-IsGuarded refs)
actions-IsGuarded _ = ground arith
