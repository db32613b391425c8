-- ===== src/Lifecycle/Orderly.antt =====
-- How the phases of connections and the maps of a room belong together between critical sections.
pub mod Clients
pub mod Hosts
use stealthpipe_relay.Prelude.{
  ℕ, Bool, true, false, Option, none, some, List, [], ◌∷◌, Text, nat_key, text_key, nat_beq,
  nat_beq_iff, text_beq_iff, if◌then◌else◌, ◌≡◌, ◌≢◌, ◌⊎◌, inl, inr, refl, arith, Option-cases,
}
use stealthpipe_relay.Dict.{lookup, insert, delete}
use stealthpipe_relay.Dict.Laws.{lookup-insert, lookup-delete}
use stealthpipe_relay.Types.{Conn, Ptr, Room}
use stealthpipe_relay.Create.{new_room}
use stealthpipe_relay.Lifecycle.Sections.{
  Phase, idle, asking, waiting, taking, linking, linked, refused, State, move, beginning, ask,
  enter, take, name_conn, name_client, Section, asks, enters, takes, finds_no_request, names_conn,
  finds_no_client, names_client, gives_up, Run, begun, further,
}

abbrev pub Asks : Phase → Text → Type 0
Asks p r = (p ≡ asking r) ⊎ (p ≡ waiting r)

pub record IsOrderly (s : State) : Type 0 where
  pub requested_by :
      (r : Text) (c : Conn) → lookup r s.room.requested_connections ≡ some c → Asks (s.at c) r
  pub taken_by : (h c : Conn) (r : Text) → s.at h ≡ taking r c → Asks (s.at c) r
  pub untaken :
      (r q : Text) (h c : Conn)
      → lookup r s.room.requested_connections ≡ some c
      → s.at h ≢ taking q c
  pub one_taker : (h k c : Conn) (r q : Text) → s.at h ≡ taking r c → s.at k ≡ taking q c → h ≡ k
  pub fresh : (c : Conn) → s.at c ≡ idle → lookup c s.room.clients_to_host ≡ none
  pub not_entered :
      (c : Conn) (r : Text) → s.at c ≡ asking r → lookup c s.room.clients_to_host ≡ none
  pub entered : (c : Conn) (r : Text) → s.at c ≡ waiting r → lookup c s.room.clients_to_host ≢ none
  pub unlinked :
      (r : Text) (c h : Conn)
      → lookup r s.room.requested_connections ≡ some c
      → lookup c s.room.clients_to_host ≢ some (some h)
  pub unlinked_taken :
      (r : Text) (k c h : Conn)
      → s.at k ≡ taking r c
      → lookup c s.room.clients_to_host ≢ some (some h)
  pub linked_to :
      (c h : Conn)
      → lookup c s.room.clients_to_host ≡ some (some h)
      → (s.at h ≡ linking c) ⊎ (s.at h ≡ linked c)
  pub link_of : (h c : Conn) → s.at h ≡ linking c → lookup c s.room.clients_to_host ≡ some (some h)
  pub linked_of :
      (h c : Conn)
      → s.at h ≡ linked c
      → (lookup c s.room.clients_to_host ≡ some (some h))
        × (lookup h s.room.host_to_clients ≡ some c)
  pub hosted : (h c : Conn) → lookup h s.room.host_to_clients ≡ some c → s.at h ≡ linked c
