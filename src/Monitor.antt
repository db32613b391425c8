-- ===== src/Monitor.antt =====
-- src/core/TrafficMonitoring.go, StatsPPS.go and InstanceHealthHandler.go: one tick of each loop.
pub mod Difficulty
pub mod Stats
use stealthpipe_relay.Prelude.{
  ℕ, ◌+◌, ◌-◌, ◌*◌, Bool, true, false, not, ◌&&◌, List, [], ◌∷◌, ltb, if◌then◌else◌,
}
use stealthpipe_relay.Types.{Server, ServerConfig, add64}

-- The difficulty that the number of requests of the last second asks for.
unfoldable pub target_difficulty : ServerConfig → ℕ → ℕ
target_difficulty config rps =
    if ltb config.difficulty7_threshold rps
    then 7
    else if ltb config.difficulty6_threshold rps
    then 6
    else 5

-- Up at once. Down when `time.Since(app.LastUpped) > time.Duration(app.Config.DifficultyCooldown)`:
-- a `time.Duration` counts nanoseconds.
unfoldable pub adjust_difficulty : Server → ℕ → ℕ → Server
adjust_difficulty app target now =
    if ltb app.current_difficulty target
    then record app { current_difficulty = target; last_upped = now }
    else if ltb target app.current_difficulty
    then (if ltb app.config.difficulty_cooldown (now - app.last_upped)
        then record app { current_difficulty = target }
        else app)
    else app

unfoldable pub monitor_traffic : Server → ℕ → Server
unfolding target_difficulty adjust_difficulty
monitor_traffic app now =
    adjust_difficulty (record app { handshake_counter = 0 })
      (target_difficulty app.config app.handshake_counter) now

-- `app.PacketsPerSecond.Store(app.PacketCounter.Swap(0))`
unfoldable pub stats_pps_tick : Server → Server
stats_pps_tick app = record app { packets_per_second = app.packet_counter; packet_counter = 0 }

-- `app.PacketCounter.Add(1)`
unfoldable pub count_packet : Server → Server
count_packet app = record app { packet_counter = add64 app.packet_counter 1 }

unfoldable pub health_check_coroutines : ℕ → Bool
health_check_coroutines count = if ltb 5000 count then false else true

-- What a round of the watchdog does to the process.
pub data Verdict : Type 0 where
  go_on terminate : Verdict

-- `acquired` says whether the lock came within ten seconds. The count of goroutines is only logged.
unfoldable pub deadlock_watchdog : Server → Bool → ℕ → Server × Verdict
unfolding health_check_coroutines
deadlock_watchdog app acquired count =
    let logged = health_check_coroutines count in
    let app' = record app { is_healthy = acquired } in
    if not app'.is_healthy && app'.config.terminate_when_unhealthy
    then (app', terminate)
    else (app', go_on)
