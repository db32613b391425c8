-- ===== src/Monitor/Difficulty.antt =====
-- How the proof-of-work difficulty follows the load.
use stealthpipe_relay.Prelude.{ℕ, ◌+◌, ◌≤◌, ◌≡◌, arith, ◌⊎◌}
use stealthpipe_relay.Types.{Server, second}
use stealthpipe_relay.Monitor.{target_difficulty, monitor_traffic}

-- A tick takes the requests it has seen off the counter and never leaves the difficulty under what
-- they ask for; it keeps the difficulty between 5 and 7, and raises it only to that target.
pub monitor_traffic_bounds :
    (app : Server) (now : ℕ)
    → 5 ≤ app.current_difficulty
    → app.current_difficulty ≤ 7
    → let app' = monitor_traffic app now in
      let target = target_difficulty app.config app.handshake_counter in
      (target ≤ app'.current_difficulty)
      × (5 ≤ app'.current_difficulty)
      × (app'.current_difficulty ≤ 7)
      × (app'.handshake_counter ≡ 0)
      × ((app'.current_difficulty ≡ target) ⊎ (app'.current_difficulty ≡ app.current_difficulty))
unfolding monitor_traffic
monitor_traffic_bounds app now lo hi = ground arith

-- The cooldown of 30,000 milliseconds is read as 30,000 nanoseconds. So a tick that comes a second
-- or more after the difficulty was raised lowers it at once to what the last second asks for.
pub monitor_traffic-no_cooldown :
    (app : Server) (now : ℕ)
    → app.config.difficulty_cooldown ≡ 30000
    → app.last_upped + second ≤ now
    → (monitor_traffic app now).current_difficulty
      ≡ target_difficulty app.config app.handshake_counter
unfolding monitor_traffic
monitor_traffic-no_cooldown app now cooldown later = ground arith

-- Within the cooldown, counted in nanoseconds, the difficulty does not fall.
pub monitor_traffic-holds :
    (app : Server) (now : ℕ)
    → now ≤ app.last_upped + app.config.difficulty_cooldown
    → app.current_difficulty ≤ (monitor_traffic app now).current_difficulty
unfolding monitor_traffic
monitor_traffic-holds app now early = ground arith
