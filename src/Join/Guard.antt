-- ===== src/Join/Guard.antt =====
-- What has to hold before a connection is served.
use stealthpipe_relay.Prelude.{
  ℕ, Option, none, some, List, [], ◌∷◌, Text, text_key, ◌≡◌, ◌≢◌, refl, arith, Option-cases, inl,
  inr,
}
use stealthpipe_relay.Dict.{lookup}
use stealthpipe_relay.Types.{Conn, RoomRef, Server, Effect, close}
use stealthpipe_relay.Types.Reasons.{CloseReason}
use stealthpipe_relay.Join.{
  Request, Session, host_signal, client_signal, client_relay, host_relay, check_version, check_room,
  handle_relay, join_room,
}
use stealthpipe_relay.Join.Refused.{Outcome, join_room-Outcome}

-- A version that the relay serves, and a code that is not empty and has a room.
pub record MayJoin (major : Text → Option ℕ) (app : Server) (r : Request) : Type 0 where
  pub version : check_version major app.config r.version ≡ none
  pub named : r.id ≢ []
  pub room : (ref : RoomRef) × (lookup r.id app.rooms ≡ some ref)

module _ (major : Text → Option ℕ) (app : Server) (r : Request) (conn : Conn) where
  -- A connection that is not served is closed, once; one that is served gets no message and met the
  -- conditions.
  abbrev pub Guarded : Server × List Effect × Option Session → Type 0
  Guarded (app', effects, none) = (reason : CloseReason) × (effects ≡ close conn reason ∷ [])
  Guarded (app', effects, some session) = MayJoin major app r × (effects ≡ [])

  check_room-named :
      check_room app r.id r.host ≡ none
      → (r.id ≢ []) × (ref : RoomRef) × (lookup r.id app.rooms ≡ some ref)
  unfolding check_room
  check_room-named passes = elim (Option-cases (lookup r.id app.rooms)) [
    | inl missing ↦ absurd (ground arith)
    | inr (ref, room) ↦ (λ e. ground arith, ref, room)
  ]

  Guarded-Outcome :
      (before : Server) (t : Server × List Effect × Option Session)
      → MayJoin major app r
      → Outcome conn before t
      → Guarded t
  Guarded-Outcome before (app', effects, none) may o = (o.0, o.1)
  Guarded-Outcome before (app', effects, some host_signal) may o = (may, o.0)
  Guarded-Outcome before (app', effects, some client_signal) may o = (may, o.0)
  Guarded-Outcome before (app', effects, some client_relay) may o = (may, o.0)
  Guarded-Outcome before (app', effects, some host_relay) may o = (may, o.0)

  -- A connection is served only if its version passes the check and its code is not empty and had a
  -- room at the first look, whatever others did before the joining, and gets no message then; a
  -- connection that is not served is closed with one reason.
  pub handle_relay-Guarded :
      (meanwhile : Server → Server) (now : ℕ)
      → Guarded (handle_relay major app meanwhile r conn now)
  unfolding handle_relay
  handle_relay-Guarded meanwhile now =
      elim (Option-cases (check_version major app.config r.version)) [
        | inr (reason, refused) ↦ rw (refused, handle_relay) (reason, refl)
        | inl served ↦ elim (Option-cases (check_room app r.id r.host)) [
          | inr (reason, refused) ↦ rw (served, handle_relay) (rw refused (reason, refl))
          | inl there ↦
              let (named, ref, room) = check_room-named there in
              rw (served, handle_relay)
                (rw there (
                  Guarded-Outcome (meanwhile app) (join_room (meanwhile app) r conn now)
                    (record { version = served; named = named; room = (ref, room) })
                    (join_room-Outcome (meanwhile app) r conn now)))
        ]
      ]
