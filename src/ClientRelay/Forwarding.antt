-- ===== src/ClientRelay/Forwarding.antt =====
-- What the loop from a client to its host connection forwards.
use stealthpipe_relay.Prelude.{
  ℕ, zero, suc, ◌+◌, ◌%◌, ◌^◌, ◌≤◌, ◌<◌, Bool, true, false, not, ◌&&◌, none, List, [], ◌∷◌, Text,
  take, length, leb, map, if◌then◌else◌, ◌≡◌, ◌≢◌, refl, arith, ap, ◌∙◌, ◌↔◌, Bool-cases, inl, inr,
}
use stealthpipe_relay.Types.{Conn, Server, Effect, write, word64}
use stealthpipe_relay.ClientRelay.Forward.{
  CopyError, Frame, read_error, not_binary, binary, copy_failed, Round, skip, forward, stop,
  client_round, Stopped, sent, counted, client_loop,
}

pub take_all : {A : Type 0} (n : ℕ) (xs : List A) → length xs ≤ n → take n xs ≡ xs
take_all zero [] h = refl
take_all zero (x ∷ xs) h = absurd (omega arith)
take_all (suc n) [] h = refl
take_all (suc n) (x ∷ xs) h = ap (◌∷◌ x) (take_all n xs (omega arith))

pub length-take_long : {A : Type 0} (n : ℕ) (xs : List A) → n ≤ length xs → length (take n xs) ≡ n
length-take_long zero xs h = refl
length-take_long (suc n) [] h = absurd (omega arith)
length-take_long (suc n) (x ∷ xs) h = ap suc (length-take_long n xs (omega arith))

-- A frame ends the loop, unless it is no binary message, or one that can be written and copied, is
-- not over the maximum, and passes the limiter.
abbrev pub ends : ℕ → Frame → Bool
ends maximum read_error = true
ends maximum not_binary = false
ends maximum (binary message writer_ok copy limiter_ok) =
    not (writer_ok && (not (copy_failed copy) && (leb (length message) maximum && limiter_ok)))

-- The binary messages before the first frame that ends the loop.
abbrev pub payloads : ℕ → List Frame → List Text
payloads maximum [] = []
payloads maximum (read_error ∷ frames) = []
payloads maximum (not_binary ∷ frames) = payloads maximum frames
payloads maximum (binary message writer_ok copy limiter_ok ∷ frames) =
    if ends maximum (binary message writer_ok copy limiter_ok)
    then []
    else message ∷ payloads maximum frames

abbrev pub any_ends : ℕ → List Frame → Bool
any_ends maximum [] = false
any_ends maximum (frame ∷ frames) = if ends maximum frame then true else any_ends maximum frames

abbrev pub writes : Conn → List Text → List Effect
writes target = map (write target)

client_round-skip : (maximum : ℕ) → client_round maximum not_binary ≡ skip
unfolding client_round
client_round-skip maximum = refl

client_round-forward :
    (maximum : ℕ) (message : Text) (writer_ok : Bool) (copy : CopyError) (limiter_ok : Bool)
    → ends maximum (binary message writer_ok copy limiter_ok) ≡ false
    → client_round maximum (binary message writer_ok copy limiter_ok) ≡ forward message
unfolding client_round
client_round-forward maximum message writer_ok copy limiter_ok h =
    ground (arith, take_all (maximum + 1) message)

abbrev is_stop : Round → Bool
is_stop skip = false
is_stop (forward message) = false
is_stop (stop reason) = true

client_round-stop :
    (maximum : ℕ) (message : Text) (writer_ok : Bool) (copy : CopyError) (limiter_ok : Bool)
    → ends maximum (binary message writer_ok copy limiter_ok) ≡ true
    → is_stop (client_round maximum (binary message writer_ok copy limiter_ok)) ≡ true
unfolding client_round
client_round-stop maximum message writer_ok copy limiter_ok h =
    ground (arith, length-take_long (maximum + 1) message)

-- The server after `n` more packets.
abbrev pub bump : Server → ℕ → Server
bump app n = record app { packet_counter = (app.packet_counter + n) % word64 }

bump-zero : (app : Server) → app.packet_counter < 2 ^ 64 → bump app 0 ≡ app
bump-zero app h =
    let e : (app.packet_counter + 0) % 2 ^ 64 ≡ app.packet_counter = omega arith in rw e

bump-counted : (app : Server) (n : ℕ) → bump (counted app) n ≡ bump app (suc n)
unfolding counted
bump-counted app n =
    let e : ((app.packet_counter + 1) % 2 ^ 64 + n) % 2 ^ 64
        ≡ (app.packet_counter + suc n) % 2 ^ 64 =
      omega arith in
    rw e

client_loop-stop :
    (app : Server) (target : Conn) (frame : Frame) (frames : List Frame)
    → is_stop (client_round app.config.packet_maximum_size frame) ≡ true
    → let s = client_loop app target (frame ∷ frames) in
      (s.effects ≡ []) × (s.server ≡ app) × (s.reason ≢ none)
unfolding client_loop
client_loop-stop app target frame frames h =
    stops (client_round app.config.packet_maximum_size frame) refl h
  where
    stops :
        (r : Round)
        → client_round app.config.packet_maximum_size frame ≡ r
        → is_stop r ≡ true
        → let s = client_loop app target (frame ∷ frames) in
          (s.effects ≡ []) × (s.server ≡ app) × (s.reason ≢ none)
    stops skip e h = cc
    stops (forward m) e h = cc
    stops (stop reason) e h = rw (e, client_loop) (refl, refl, λ q. cc)

client_loop-forward :
    (app : Server) (target : Conn) (frame : Frame) (message : Text) (frames : List Frame)
    → client_round app.config.packet_maximum_size frame ≡ forward message
    → client_loop app target (frame ∷ frames)
      ≡ sent target message (client_loop (counted app) target frames)
unfolding client_loop
client_loop-forward app target frame message frames h = rw (h, client_loop) refl

-- What has to hold of the place where the loop stands.
pub record IsForwarded (app : Server) (target : Conn) (frames : List Frame) (s : Stopped)
    : Type 0 where
  pub effects : s.effects ≡ writes target (payloads app.config.packet_maximum_size frames)
  pub server : s.server ≡ bump app (length (payloads app.config.packet_maximum_size frames))
  pub running : (s.reason ≡ none) ↔ (any_ends app.config.packet_maximum_size frames ≡ false)

counted_small : (app : Server) → (counted app).packet_counter < 2 ^ 64
unfolding counted
counted_small app = omega arith

-- The loop sends to the host connection exactly the binary messages that came before the first frame
-- that ends it, unchanged and in order; it counts each of them, modulo 2^64, changes nothing else of
-- the server, and runs on exactly if no frame ends it. No message over the maximum is sent.
pub client_loop-IsForwarded :
    (app : Server) (target : Conn) (frames : List Frame)
    → app.packet_counter < 2 ^ 64
    → IsForwarded app target frames (client_loop app target frames)
unfolding client_loop
client_loop-IsForwarded app target [] h = record {
  effects = refl;
  server = rw (bump-zero app h);
  running = (λ e. refl, λ e. refl);
}
client_loop-IsForwarded app target (read_error ∷ frames) h = record {
  effects = refl;
  server = rw (bump-zero app h);
  running = (λ e. cc, λ e. cc);
}
client_loop-IsForwarded app target (not_binary ∷ frames) h =
    let i = client_loop-IsForwarded app target frames h in
    record { effects = i.effects; server = i.server; running = i.running }
client_loop-IsForwarded app target (binary m w c l ∷ frames) h =
    elim (Bool-cases (ends app.config.packet_maximum_size (binary m w c l))) [
      | inl over ↦
          let (sent_none, same, reason) =
            client_loop-stop app target (binary m w c l) frames
              (client_round-stop app.config.packet_maximum_size m w c l over) in
          record {
            effects = rw over sent_none;
            server = rw (over, bump-zero app h) same;
            running = (
              λ e. absurd (reason e),
              λ q. let f : ◌≡◌ {A = Bool} true false = rw over at q in cc,
            );
          }
      | inr goes ↦
          let i = client_loop-IsForwarded (counted app) target frames (counted_small app) in
          let next =
            client_loop-forward app target (binary m w c l) m frames
              (client_round-forward app.config.packet_maximum_size m w c l goes) in
          record {
            effects = rw (goes, next) (ap (◌∷◌ (write target m)) i.effects);
            server = rw (goes, next) (i.server ∙ bump-counted app _);
            running = rw (goes, next) i.running;
          }
    ]
