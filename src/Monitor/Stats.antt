-- ===== src/Monitor/Stats.antt =====
-- The packet statistics of src/core/StatsPPS.go, and what the watchdog reports.
use stealthpipe_relay.Prelude.{ℕ, ◌+◌, ◌<◌, ◌^◌, Bool, true, false, List, [], ◌∷◌, ◌≡◌, arith, ◌↔◌}
use stealthpipe_relay.Types.{Server}
use stealthpipe_relay.Monitor.{stats_pps_tick, count_packet, deadlock_watchdog, terminate}

-- A run of the relay as the counters see it.
pub data Event : Type 0 where
  packet tick : Event

unfoldable pub step : Event → Server → Server
unfolding stats_pps_tick count_packet
step packet app = count_packet app
step tick app = stats_pps_tick app

abbrev pub packets : List Event → ℕ
packets [] = 0
packets (packet ∷ es) = packets es + 1
packets (tick ∷ es) = packets es

-- The sum of the values that the ticks publish, and what is still in the counter at the end.
unfoldable pub published : List Event → Server → ℕ
unfolding step
published [] app = app.packet_counter
published (packet ∷ es) app = published es (step packet app)
published (tick ∷ es) app = (step tick app).packets_per_second + published es (step tick app)

-- The published rates and the rest in the counter add up to the packets that were forwarded, in any
-- order of packets and ticks, as long as they are fewer than 2^64.
pub published-packets :
    (es : List Event) (app : Server)
    → app.packet_counter + packets es < 2 ^ 64
    → published es app ≡ app.packet_counter + packets es
unfolding published
published-packets [] app h = omega arith
published-packets (packet ∷ es) app h =
    omega (arith, published-packets es (step packet app) (omega arith))
published-packets (tick ∷ es) app h =
    omega (arith, published-packets es (step tick app) (omega arith))

-- The watchdog stops the process exactly when the lock did not come and the configuration says so;
-- the health that it stores is whether the lock came. The number of goroutines changes neither.
pub deadlock_watchdog-terminates :
    (app : Server) (acquired : Bool) (count : ℕ)
    → let (app', verdict) = deadlock_watchdog app acquired count in
      ((verdict ≡ terminate) ↔ ((acquired ≡ false) × (app.config.terminate_when_unhealthy ≡ true)))
      × (app' ≡ record app { is_healthy = acquired })
unfolding deadlock_watchdog
deadlock_watchdog-terminates app acquired count = ground arith
