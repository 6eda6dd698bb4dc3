-- ===== src/Channel/Heartbeat.antt =====
-- src/health_channel.cpp: the heartbeat, from report to isAlive.
use phm.Base.{ℕ, ◌-◌, ◌^◌, ◌≤◌, ◌<◌, ◌≡◌, ◌↔◌, true, false, arith}
use phm.Channel.{HealthChannel, u64_mod, report, get_alive_counter, is_alive}

module _ {D : Type 0} (hc : HealthChannel D) (written now counter : ℕ)
    (fits : written < u64_mod) where
  -- A channel that was written at `written` shows the counter written, and is alive at a later
  -- `now` exactly while less than its timeout has passed.
  pub is_alive-report :
      written ≤ now
      → now < u64_mod
      → let hc' = report hc written counter in
        (get_alive_counter hc' ≡ counter)
        × ((is_alive hc' now ≡ true) ↔ (now - written < hc.timeout))
  unfolding report is_alive get_alive_counter
  is_alive-report h k = ground arith

  -- Read with a clock behind the writer's, the age wraps to a number of 64 bits close to 2 ^ 64, so
  -- with any timeout below 2 ^ 63 and clocks that differ by less than 2 ^ 63 the channel is dead.
  pub is_alive-report_behind :
      now < written
      → written - now < 2 ^ 63
      → hc.timeout < 2 ^ 63
      → is_alive (report hc written counter) now ≡ false
  unfolding report is_alive
  is_alive-report_behind h near t = ground arith
