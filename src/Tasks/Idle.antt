-- ===== src/Tasks/Idle.antt =====
-- What `CleanIdleRooms` removes and closes, and the race between its scan and its deletions.
use stealthpipe_relay.Prelude.{
  ℕ, Bool, true, false, none, some, List, [], ◌∷◌, Text, text_key, if◌then◌else◌, ◌≡◌, arith, In,
  inl, inr,
}
use stealthpipe_relay.Dict.{Dict, lookup}
use stealthpipe_relay.Dict.Laws.{lookup-delete_all, In-of_lookup}
use stealthpipe_relay.Dict.Distinct.{IsDict, member-keys_where}
use stealthpipe_relay.Types.{Conn, RoomRef, Room, Server, ServerConfig, unix_milli, close}
use stealthpipe_relay.Types.Reasons.{CloseReason}
use stealthpipe_relay.Tasks.{
  is_idle, idle_rooms, idle_hosts, idle_hosts_in, close_each, clean_idle_rooms,
}

abbrev pub was_idle : Server → ℕ → Text → Bool
was_idle seen now code = elim (lookup code seen.rooms) [
  | none ↦ false
  | some ref ↦ is_idle seen.config (unix_milli now) (seen.heap ref)
]

-- A tick removes exactly the rooms that were idle in the state that its scan saw. The state at the
-- deletion does not matter: a room that clients joined after the scan is removed with them.
pub lookup-clean_idle_rooms :
    (seen app : Server) (now : ℕ) (code : Text)
    → IsDict seen.rooms
    → lookup code (clean_idle_rooms seen now app).0.rooms
      ≡ (if was_idle seen now code then none else lookup code app.rooms)
unfolding clean_idle_rooms idle_rooms
lookup-clean_idle_rooms seen app now code d =
    rw (
      lookup-delete_all (idle_rooms seen now) code app.rooms,
      member-keys_where _ code seen.rooms d,
    )

module _ (config : ServerConfig) (heap : RoomRef → Room) (now : ℕ) where
  idle_hosts_in_complete :
      (code : Text) (ref : RoomRef) (conn : Conn) (rooms : Dict Text RoomRef)
      → In (code, ref) rooms
      → is_idle config now (heap ref) ≡ true
      → (heap ref).host ≡ some conn
      → In conn (idle_hosts_in config heap now rooms)
  unfolding idle_hosts_in
  idle_hosts_in_complete code ref conn [] i idle host = absurd i
  idle_hosts_in_complete code ref conn ((c, r) ∷ rooms) (inl e) idle host = ground arith
  idle_hosts_in_complete code ref conn ((c, r) ∷ rooms) (inr i) idle host =
      ground (arith, idle_hosts_in_complete code ref conn rooms i idle host)

In-close_each :
    (reason : CloseReason) (conn : Conn) (conns : List Conn)
    → In conn conns
    → In (close conn reason) (close_each reason conns)
In-close_each reason conn [] i = absurd i
In-close_each reason conn (c ∷ conns) (inl e) = ground arith
In-close_each reason conn (c ∷ conns) (inr i) = inr (In-close_each reason conn conns i)

-- The host of every room that was idle at the scan is closed as idle, also where the room has
-- clients by the time of the deletion: between the phases nothing is looked at again.
pub clean_idle_rooms-closes :
    (seen app : Server) (now : ℕ) (code : Text) (ref : RoomRef) (conn : Conn)
    → lookup code seen.rooms ≡ some ref
    → is_idle seen.config (unix_milli now) (seen.heap ref) ≡ true
    → (seen.heap ref).host ≡ some conn
    → In (close conn CloseReason.connection_idle) (clean_idle_rooms seen now app).1
unfolding clean_idle_rooms idle_hosts
clean_idle_rooms-closes seen app now code ref conn found idle host =
    In-close_each CloseReason.connection_idle conn (idle_hosts seen now) (
      idle_hosts_in_complete seen.config seen.heap (unix_milli now) code ref conn seen.rooms
        (In-of_lookup code ref seen.rooms found) idle host)
