-- ===== src/Endpoints/Ping.antt =====
-- The tests of a client's version in `PingPathHandler` and in `HandleRelay`, side by side.
use stealthpipe_relay.Prelude.{ℕ, true, Option, none, some, Text, ◌≡◌, arith, ◌↔◌}
use stealthpipe_relay.Types.{Server, ServerConfig}
use stealthpipe_relay.Join.{check_version, compare_majors}
use stealthpipe_relay.Endpoints.{ping_path_handler, ping_versions}

ping_versions-compare_majors :
    (major : Text → Option ℕ) (config : ServerConfig) (version : Text) (v relay : Option ℕ)
    → ((ping_versions config version v relay).status ≡ 200) ↔ (compare_majors major relay v ≡ none)
unfolding ping_versions compare_majors
ping_versions-compare_majors major config version none none = ground arith
ping_versions-compare_majors major config version none (some r) = ground arith
ping_versions-compare_majors major config version (some v) none = ground arith
ping_versions-compare_majors major config version (some v) (some r) = ground arith

-- A ping succeeds exactly when the instance is healthy and `/join` would not refuse the version.
pub ping_path_handler-check_version :
    (major : Text → Option ℕ) (app : Server) (version : Text)
    → ((ping_path_handler major app version).status ≡ 200)
      ↔ ((app.is_healthy ≡ true) × (check_version major app.config version ≡ none))
unfolding ping_path_handler check_version
ping_path_handler-check_version major app version = ground (
  arith,
  ping_versions-compare_majors major app.config version (major version)
      (major app.config.relay_version),
)
