-- ===== src/Endpoints.antt =====
-- src/core/ServerEndpoints.go and RequestLogger.go: the small endpoints, and the address of a request.
pub mod Ping
use stealthpipe_relay.Prelude.{
  ℕ, ◌-◌, ◌^◌, Bool, true, false, not, ◌&&◌, ◌||◌, Option, none, some, List, [], ◌∷◌, ◌++◌, Text,
  codes, is_empty, ltb, if◌then◌else◌,
}
use stealthpipe_relay.Numbers.{ℤ, pos, negsuc, print_int}
use stealthpipe_relay.Types.{Server, ServerConfig}
use stealthpipe_relay.ProofOfWork.Tokens.{Crypto}
use stealthpipe_relay.ProofOfWork.{generate_proof_of_work}

-- A status and a body.
pub record Reply : Type 0 where
  pub status : ℕ
  pub body : Text

abbrev pub ok : Reply
ok = record { status = 200; body = codes "OK" }

-- `http.Error` ends the body with a line feed.
abbrev pub http_error : ℕ → Text → Reply
http_error status message = record { status = status; body = message ++ 10 ∷ [] }

abbrev pub unhealthy : Reply
unhealthy = http_error 503 (codes "Instance unhealthy")

unfoldable pub main_path_handler : Reply
main_path_handler = record { status = 200; body = codes "Service is Online" }

-- A 64-bit counter as the signed number that it stands for.
abbrev pub signed64 : ℕ → ℤ
signed64 n = if ltb n (2 ^ 63) then pos n else negsuc (2 ^ 64 - 1 - n)

unfoldable pub stats_path_handler : Server → Reply
stats_path_handler app = record {
  status = 200;
  body =
      codes "{\"ok\":true,\"packetsPerSecond\":"
      ++ print_int (signed64 app.packets_per_second)
      ++ codes ",\"clientsConnected\":"
      ++ print_int (signed64 app.number_of_clients_connected)
      ++ codes "}";
}

unfoldable pub health_path_handler : Server → Reply
health_path_handler app = if not app.is_healthy then unhealthy else ok

unfoldable pub incompatible : ServerConfig → Text → Reply
incompatible config version = http_error 426 (
    codes "Your client version is incompatible with this relay's version. You have: "
    ++ version
    ++ codes ", the relay you are trying to connect to has: "
    ++ config.relay_version)

unfoldable pub outdated : ServerConfig → Text → Reply
outdated config version = http_error 426 (
    codes "Outdated client! Client version & relay version are incompatible. "
    ++ codes "You must update to keep using this relay! Your client version is: "
    ++ version
    ++ codes ", the relay you are trying to connect to has: "
    ++ config.relay_version
    ++ codes ". Please update!")

-- `major` is `semver.NewVersion` with `Major`; `none` is its error. The client's version comes first.
unfoldable pub ping_versions : ServerConfig → Text → Option ℕ → Option ℕ → Reply
unfolding incompatible outdated
ping_versions config version none relay = http_error 400 (codes "Invalid version provided")
ping_versions config version (some v) none = http_error 500 (codes "Server Error")
ping_versions config version (some v) (some relay) =
    if ltb relay v
    then incompatible config version
    else if ltb v relay
    then outdated config version
    else ok

module _ (major : Text → Option ℕ) where
  unfoldable pub ping_path_handler : Server → Text → Reply
  unfolding ping_versions
  ping_path_handler app version =
      if not app.is_healthy
      then unhealthy
      else if is_empty version
      then http_error 426 (
          codes "Outdated client! Please update to: "
          ++ app.config.relay_version
          ++ codes " to connect to this relay.")
      else ping_versions app.config version (major version) (major app.config.relay_version)

module _ (lib : Crypto) (secret : Text) where
  abbrev pub pow_reply : Text × Text → Reply
  pow_reply (token, salt) = record {
    status = 200;
    body =
        codes "{\"ok\":true,\"token\":\"" ++ token ++ codes "\",\"salt\":\"" ++ salt ++ codes "\"}";
  }

  unfoldable pub handle_proof_of_work_endpoint : Server → ℕ → ℕ → Reply
  handle_proof_of_work_endpoint app random now =
      pow_reply (generate_proof_of_work lib secret app random now)

-- The headers of a request, where a missing one is empty. `split_host_port` is `net.SplitHostPort`,
-- whose host is empty beside an error.
unfoldable pub get_ip_from_request : (Text → Text) → Text → Text → Text → Text
get_ip_from_request split_host_port forwarded_for real_ip remote_addr =
    if is_empty forwarded_for
    then (if is_empty real_ip then split_host_port remote_addr else real_ip)
    else forwarded_for
