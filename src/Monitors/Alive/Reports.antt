-- ===== src/Monitors/Alive/Reports.antt =====
-- src/monitors/alive_monitor.cpp: when check reports that the heartbeat stopped.
use phm.Base.{
  ℕ, ◌-◌, ◌≤◌, ◌<◌, true, false, ◌≡◌, refl, ◌↔◌, ◌⊎◌, is_empty, arith, done-injective, ap, sym, ◌∙◌,
}
use phm.Types.{running, PhmEvent, Doubles}
use phm.Monitor.{KeepsName}
use phm.Channel.{HealthChannel, u64_mod, report, is_alive, get_alive_counter}
use phm.Channel.Heartbeat.{is_alive-report}
use phm.Monitors.Surroundings.{Surroundings, generate_id}
use phm.Monitors.Alive.{AliveMonitor, check, start, stop, reset, monitor}

module _ {D : Type 0} where
  -- check reports exactly when the monitor has a channel, has its baseline, and finds the channel
  -- timed out or the counter where it was. A check with a channel always takes the counter read as
  -- the next baseline.
  pub check-heartbeat :
      (env : Surroundings D) (m : AliveMonitor D)
      → let (m', ev) = check env m in
        ((is_empty ev.id ≡ false) ↔ (
          (m.health_channel ≡ true)
          × (m.first_check ≡ false)
          × ((is_alive env.channel env.steady_now ≡ false)
              ⊎ (get_alive_counter env.channel ≡ m.last_counter))))
        × ((m.health_channel ≡ false) ⊎ (m'.last_counter ≡ get_alive_counter env.channel))
        × ((m.health_channel ≡ false) ⊎ (m'.first_check ≡ false))
  unfolding check generate_id
  check-heartbeat env m = ground arith

  beat :
      (env : Surroundings D) (m : AliveMonitor D) (counter : ℕ)
      → m.health_channel ≡ true
      → m.first_check ≡ false
      → is_alive env.channel env.steady_now ≡ true
      → get_alive_counter env.channel ≡ counter
      → m.last_counter < counter
      → let (m', ev) = check env m in
        (is_empty ev.id ≡ true) × (m'.state ≡ running) × (m'.last_counter ≡ counter)
  unfolding check
  beat env m counter c f a e l = ground arith

  -- From the process to the monitor: a process that has written a higher counter less than the
  -- timeout ago is reported RUNNING, with no event.
  pub check-heartbeat_channel :
      (env : Surroundings D) (m : AliveMonitor D) (hc : HealthChannel D) (written counter : ℕ)
      → env.channel ≡ report hc written counter
      → m.health_channel ≡ true
      → m.first_check ≡ false
      → m.last_counter < counter
      → written ≤ env.steady_now
      → env.steady_now < u64_mod
      → env.steady_now - written < hc.timeout
      → let (m', ev) = check env m in
        (is_empty ev.id ≡ true) × (m'.state ≡ running) × (m'.last_counter ≡ counter)
  check-heartbeat_channel env m hc written counter e c f l w n t =
      let (seen, fresh) = is_alive-report hc written env.steady_now counter (omega arith) w n in
      beat env m counter c f (rw e (fresh.1 t)) (rw e seen) l

  name-check : (env : Surroundings D) (m : AliveMonitor D) → (check env m).0.name ≡ m.name
  unfolding check
  name-check env m = ground arith

pub alive-KeepsName : {D : Type 0} (d : Doubles D) → KeepsName (monitor d)
unfolding monitor start stop reset
alive-KeepsName {D} d = record {
  name-start = λ e m. refl;
  name-stop = λ m. refl;
  name-reset = λ m. refl;
  name-check = λ e m m' ev h.
      ap (λ (r : AliveMonitor D × PhmEvent). r.0.name) (sym (done-injective h)) ∙ name-check e m;
}
