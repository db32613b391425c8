-- ===== src/Lifecycle/Registry.antt =====
-- What the rooms of the relay promise, without addresses, orders of maps and the second map: a
-- registry of rooms by their codes, each with its host, its clients and the requests that wait.
use stealthpipe_relay.Prelude.{
  Bool, true, Option, none, some, Text, Key, nat_key, text_key, ◌==◌, if◌then◌else◌, ◌≡◌, ◌≢◌,
}
use stealthpipe_relay.Types.{Conn, Ptr}

-- `clients` gives a client's host connection, or `some none` while it waits for one.
pub record Place : Type 0 where
  pub host : Ptr
  pub clients : Conn → Option Ptr
  pub waiting : Text → Option Conn

abbrev pub Registry : Type 0
Registry = Text → Option Place

-- `g` is `f` but for its value at one key.
abbrev pub Puts : {K V : Type 0} ⦃e : Key K⦄ → (K → V) → K → V → (K → V) → Type 0
Puts {K} f k v g = (c : K) → g c ≡ (if k == c then v else f c)

abbrev pub Agrees : {K V : Type 0} → (K → V) → (K → V) → Type 0
Agrees {K} f g = (c : K) → g c ≡ f c

-- The moves of one room.
pub data Move (r r' : Place) : Type 0 where
  -- The request of a client waits.
  asks :
      (request : Text) (client : Conn)
      → r'.host ≡ r.host
      → Agrees r.clients r'.clients
      → Puts r.waiting request (some client) r'.waiting
      → Move r r'
  -- A client has an entry without a host connection.
  enters :
      (client : Conn)
      → r'.host ≡ r.host
      → Puts r.clients client (some none) r'.clients
      → Agrees r.waiting r'.waiting
      → Move r r'
  -- A request that waits is taken, and waits no more.
  takes :
      (request : Text) (client : Conn)
      → r.waiting request ≡ some client
      → r'.host ≡ r.host
      → Agrees r.clients r'.clients
      → Puts r.waiting request none r'.waiting
      → Move r r'
  -- A client that has an entry gets a host connection.
  names :
      (client conn : Conn)
      → r.clients client ≢ none
      → r'.host ≡ r.host
      → Puts r.clients client (some (some conn)) r'.clients
      → Agrees r.waiting r'.waiting
      → Move r r'
  -- A host comes to a room that has none.
  hosts :
      (conn : Conn)
      → r.host ≡ none
      → r'.host ≡ some conn
      → Agrees r.clients r'.clients
      → Agrees r.waiting r'.waiting
      → Move r r'
  -- A request waits no more.
  withdraws :
      (request : Text)
      → r'.host ≡ r.host
      → Agrees r.clients r'.clients
      → Puts r.waiting request none r'.waiting
      → Move r r'
  rests : r'.host ≡ r.host → Agrees r.clients r'.clients → Agrees r.waiting r'.waiting → Move r r'

-- The rooms of some codes are gone.
abbrev pub Loses : Registry → (Text → Bool) → Registry → Type 0
Loses s gone t = (code : Text) → t code ≡ (if gone code then none else s code)

-- A room with no host, no client and no request.
abbrev pub empty_place : Place
empty_place = record { host = none; clients = λ c. none; waiting = λ r. none }

-- What the relay is asked to do: to create a room, to give one up for a reuse token, to serve a
-- connection of a room, to end a connection, the two cleanings of rooms, or anything else.
pub data Call : Type 0 where
  create evict : Text → Call
  serve : Call
  quit : Conn → Text → Call
  prune expire keep : Call

-- The moves of the registry under a call.
pub data Moves (s t : Registry) : Call → Type 0 where
  opens : (code : Text) → Puts s code (some empty_place) t → Moves s t (create code)
  gives_up : (code : Text) → Puts s code none t → Moves s t (evict code)
  changes :
      (code : Text) (r r' : Place)
      → s code ≡ some r
      → Move r r'
      → Puts s code (some r') t
      → Moves s t serve
  -- The connection's room has left the registry.
  unseen : Agrees s t → Moves s t serve
  -- A host's end closes its own room only, and any other connection's end none.
  leaves :
      (code : Text) (r : Place) (conn : Conn)
      → s code ≡ some r
      → r.host ≡ some conn
      → Puts s code none t
      → Moves s t (quit conn code)
  remains :
      (code : Text) (conn : Conn)
      → ((r : Place) → s code ≡ some r → r.host ≢ some conn)
      → Agrees s t
      → Moves s t (quit conn code)
  -- Only rooms without a host are cleaned away as unused.
  prunes :
      (gone : Text → Bool)
      → ((code : Text) (r : Place) → gone code ≡ true → s code ≡ some r → r.host ≡ none)
      → Loses s gone t
      → Moves s t prune
  expires : (gone : Text → Bool) → Loses s gone t → Moves s t expire
  keeps : Agrees s t → Moves s t keep
