-- ===== src/Examples.antt =====
-- Concrete servers and libraries at which the theorems are run.
mod Interleaving
mod Tokens
mod Creation
mod Joining
mod Relaying
mod Signaling
mod Upkeep
mod Loading
mod Locking
mod Answering
mod Meeting
mod Serving
use stealthpipe_relay.Prelude.{
  ℕ, ◌*◌, ◌<◌, Bool, true, false, Option, none, some, List, [], ◌∷◌, Text, codes, text_key, ◌==◌,
  ltb, replicate, ◌≡◌, refl, arith, if◌then◌else◌,
}
use stealthpipe_relay.Types.{Server, Room, second, null_room, new_server}
use stealthpipe_relay.ProofOfWork.Tokens.{Payload, Crypto, IsJwt, ReadsBack, Method, hmac, other}
use stealthpipe_relay.ProofOfWork.Accept.{IsSha256}

abbrev pub secret : Text
secret = codes "key"

-- The claims of a token that lives until its expiry.
abbrev pub alive : ℕ → Payload → Option ℕ → Option Payload
alive now p none = none
alive now p (some e) = if ltb now (e * second) then some p else none

-- A library with the token `p`, and with one that names no method of the HMAC family.
abbrev pub unsigned : Text
unsigned = codes "unsigned"

abbrev named_method : Text → Method
named_method token = if token == unsigned then other (codes "none") else hmac

abbrev given_key : Option Text → Option Payload → Option (Payload × Bool)
given_key none claims = none
given_key (some key) none = none
given_key (some key) (some p) = some (p, true)

abbrev pub one_token : Payload → Crypto
one_token p = record {
  sha256 = λ text. replicate 32 0;
  sign = λ key payload. codes "token";
  method_of = λ token. some (named_method token);
  parse_with_claims = λ key now token. given_key (key (named_method token)) (alive now p p.exp);
}

pub alive-claims : (p q : Payload) (now : ℕ) (exp : Option ℕ) → alive now p exp ≡ some q → p ≡ q
alive-claims p q now none h = absurd (cc h)
alive-claims p q now (some e) h = ground arith

alive-ahead :
    (p q : Payload) (now e : ℕ) (exp : Option ℕ)
    → alive now p exp ≡ some q
    → exp ≡ some e
    → now < e * second
alive-ahead p q now e none h k = absurd (cc k)
alive-ahead p q now e (some d) h k = ground arith

given_key-some :
    (key : Option Text) (o : Option Payload) (p : Payload) (v : Bool)
    → given_key key o ≡ some (p, v)
    → o ≡ some p
given_key-some none o p v h = absurd (cc h)
given_key-some (some key) none p v h = absurd (cc h)
given_key-some (some key) (some q) p v h = cc

pub one_token-IsJwt : (p : Payload) → IsJwt (one_token p)
one_token-IsJwt p = record {
  same_claims = λ key token now later q r v w h k.
      rw (← alive-claims p q now p.exp (given_key-some _ _ q v h))
        (alive-claims p r later p.exp (given_key-some _ _ r w k));
  unexpired = λ key token now e q v h k.
      let lives = given_key-some _ _ q v h in
      alive-ahead p q now e p.exp lives (rw (← alive-claims p q now p.exp lives) at k);
  asks_key = λ key token now m named no_key.
      let same : some (named_method token) ≡ some m = named in
      let refused : key (named_method token) ≡ none = cc in rw refused refl;
}

pub one_token-ReadsBack : (p : Payload) → ReadsBack (one_token p) secret p
one_token-ReadsBack p key now e given h k = rw (given, h) (ground arith)

pub one_token-IsSha256 : (p : Payload) → IsSha256 (one_token p).sha256
one_token-IsSha256 p = record { size = λ text. refl; bytes = λ text. ground arith }

-- A room with a host, a client that is linked to a host connection, and one that waits.
abbrev pub code : Text
code = codes "123456"

abbrev pub linked_room : Room
linked_room = record null_room {
  host = some 1;
  host_mu = true;
  has_host = true;
  clients_to_host = (2, some 3) ∷ (4, none) ∷ [];
  host_to_clients = (3, 2) ∷ [];
  requested_connections = (codes "REQUESTCONNECTION_42123456", 4) ∷ [];
}

abbrev pub empty_room : Room
empty_room = record null_room { host_mu = true }

abbrev pub with_room : Room → Server
with_room room = record new_server { rooms = (code, 0) ∷ []; heap = λ ref. room; next_ref = 1 }
