-- ===== src/ClientRelay/Waiting.antt =====
-- How the wait for a host connection ends, and when it does not.
use stealthpipe_relay.Prelude.{
  ◌*◌, ◌<◌, none, some, List, [], ◌∷◌, Text, nat_key, text_key, ◌≡◌, refl, arith, All, inl, inr,
  ◌⊎◌,
}
use stealthpipe_relay.Dict.{lookup}
use stealthpipe_relay.Types.{Conn, Ptr, RoomRef, second}
use stealthpipe_relay.ClientRelay.Wait.{
  Seen, Round, returns, returns_nil, continues, slept, poll, Waited, found, gave_up, still_waiting,
  wait_for_host,
}

-- In what a round sees, the room has a host and the client's entry holds this pointer.
abbrev pub HasEntry : Conn → Text → Ptr → Seen → Type 0
HasEntry conn game_id entry seen =
    (ref : RoomRef) × (host : Conn) × (lookup game_id seen.server.rooms ≡ some ref)
    × ((seen.server.heap ref).host ≡ some host)
    × (lookup conn (seen.server.heap ref).clients_to_host ≡ some entry)

poll-pending :
    (conn : Conn) (game_id : Text) (seen : Seen)
    → HasEntry conn game_id none seen
    → poll conn game_id seen ≡ continues
unfolding poll
poll-pending conn game_id seen (ref, host, room, hosted, entry) = ground arith

-- As long as the host has not answered, the client's entry is nil, and each round goes on at once,
-- without the pause and the look at the minute's limit that end a round without an entry. However
-- many rounds there are and however late they come, the wait does not end.
pub wait_for_host-never_times_out :
    (conn : Conn) (game_id : Text) (polls : List Seen)
    → All (HasEntry conn game_id none) polls
    → All (λ seen. poll conn game_id seen ≡ continues) polls
      × (wait_for_host conn game_id polls ≡ still_waiting)
unfolding wait_for_host
wait_for_host-never_times_out conn game_id [] h = (tt, refl)
wait_for_host-never_times_out conn game_id (seen ∷ polls) h =
    let goes_on = poll-pending conn game_id seen h.0 in
    let (rest, waits) = wait_for_host-never_times_out conn game_id polls h.1 in
    ((goes_on, rest), rw (goes_on, wait_for_host) waits)

-- Why a round gives up: the room is gone or has no host, or the entry is missing and the minute is
-- over.
abbrev pub GivesUp : Conn → Text → Seen → Type 0
GivesUp conn game_id seen =
    (lookup game_id seen.server.rooms ≡ none)
    ⊎ ((ref : RoomRef) × (lookup game_id seen.server.rooms ≡ some ref)
        × (((seen.server.heap ref).host ≡ none)
            ⊎ ((lookup conn (seen.server.heap ref).clients_to_host ≡ none)
                × (60 * second < seen.elapsed))))

poll-returns :
    (conn host : Conn) (game_id : Text) (seen : Seen)
    → poll conn game_id seen ≡ returns host
    → HasEntry conn game_id (some host) seen
unfolding poll
poll-returns conn host game_id seen h = ground arith

poll-returns_nil :
    (conn : Conn) (game_id : Text) (seen : Seen)
    → poll conn game_id seen ≡ returns_nil
    → GivesUp conn game_id seen
unfolding poll
poll-returns_nil conn game_id seen h = ground arith

-- One of the rounds has seen this.
abbrev pub Some : (Seen → Type 0) → List Seen → Type 0
Some P [] = ⊥
Some P (seen ∷ polls) = P seen ⊎ Some P polls

-- What the answer of a wait rests on.
abbrev pub Reached : Conn → Text → List Seen → Waited → Type 0
Reached conn game_id polls (found host) = Some (HasEntry conn game_id (some host)) polls
Reached conn game_id polls gave_up = Some (GivesUp conn game_id) polls
Reached conn game_id polls still_waiting = Unit

Reached-later :
    (conn : Conn) (game_id : Text) (seen : Seen) (polls : List Seen) (w : Waited)
    → Reached conn game_id polls w
    → Reached conn game_id (seen ∷ polls) w
Reached-later conn game_id seen polls (found host) r = inr r
Reached-later conn game_id seen polls gave_up r = inr r
Reached-later conn game_id seen polls still_waiting r = r

-- A wait that finds a connection has seen it in the client's own entry of the room; one that gives
-- up has seen the room gone or without a host, or no entry after more than a minute.
pub wait_for_host-Reached :
    (conn : Conn) (game_id : Text) (polls : List Seen)
    → Reached conn game_id polls (wait_for_host conn game_id polls)
unfolding wait_for_host
wait_for_host-Reached conn game_id [] = tt
wait_for_host-Reached conn game_id (seen ∷ polls) =
    round (poll conn game_id seen) refl (wait_for_host-Reached conn game_id polls)
  where
    round :
        (r : Round)
        → poll conn game_id seen ≡ r
        → Reached conn game_id polls (wait_for_host conn game_id polls)
        → Reached conn game_id (seen ∷ polls) (wait_for_host conn game_id (seen ∷ polls))
    round (returns host) e rest =
        rw (e, wait_for_host) (inl (poll-returns conn host game_id seen e))
    round returns_nil e rest = rw (e, wait_for_host) (inl (poll-returns_nil conn game_id seen e))
    round continues e rest = rw (e, wait_for_host) (Reached-later conn game_id seen polls _ rest)
    round slept e rest = rw (e, wait_for_host) (Reached-later conn game_id seen polls _ rest)
