-- ===== src/Tests/Sources.antt =====
-- The theorems on health channels and monitors, at concrete inputs.
use phm.Base.{
  ℕ, ◌-◌, ◌<◌, true, false, ◌≡◌, ◌↔◌, ◌⊎◌, refl, codes, [], ◌∷◌, arith, failed, null_dereference,
  is_empty, ℤ, Dict, text_ltb,
}
use phm.Types.{running}
use phm.Channel.{create, report, report_metrics, get_metrics, is_alive, get_alive_counter}
use phm.Channel.Heartbeat.{is_alive-report}
use phm.Channel.Metrics.{get_metrics-report_metrics}
use phm.Monitors.Resource
use phm.Monitors.Resource.{ResourceMonitor, judge, stop}
use phm.Monitors.Resource.Reports.{check-null_dereference}
use phm.Tests.Data.{nats, channel, lonely, watch_config}

is_alive-report_example :
    (get_alive_counter (report channel 7000 3) ≡ 3)
    × ((is_alive (report channel 7000 3) 9000 ≡ true) ↔ (9000 - 7000 < 5000))
unfolding create
is_alive-report_example =
    is_alive-report channel 7000 9000 3 (omega arith) (omega arith) (omega arith)

abbrev usage : Dict ℕ
usage = (codes "cpu", 12) ∷ (codes "fd_count", 9) ∷ (codes "memory_bytes", 4096) ∷ []

get_metrics-report_metrics_example : get_metrics (report_metrics channel usage) ≡ usage
unfolding create text_ltb
get_metrics-report_metrics_example =
    get_metrics-report_metrics channel usage refl (refl, (refl, tt)) (ground arith)

abbrev load_watch : ResourceMonitor ℕ
load_watch = record {
  name = codes "resource";
  config = watch_config;
  process_name = codes "nginx";
  state = running;
  pid = ℤ.pos 41;
  platform = true;
  health_channel = false;
  last_cpu = 0;
  last_memory = 0;
  last_fd = 0;
}

check-null_dereference_example :
    ((Resource.check nats lonely load_watch ≡ failed null_dereference)
      ↔ ((load_watch.platform ≡ false) × (is_empty load_watch.process_name ≡ false)))
    × ((is_empty load_watch.process_name ≡ true)
        ⊎ (Resource.check nats lonely (stop load_watch) ≡ failed null_dereference))
check-null_dereference_example = check-null_dereference nats lonely load_watch
