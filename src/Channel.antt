-- ===== src/Channel.antt =====
-- src/health_channel.cpp: the segment that a supervised process writes and the daemon reads. The
-- clock of each call is an argument, in milliseconds; the counters are uint64_t. The segment is
-- always mapped, to shared memory or to the object itself, so data_ is never null.
pub mod Heartbeat
pub mod Metrics
use phm.Base.{
  ℕ, ◌+◌, ◌-◌, ◌%◌, ◌^◌, zero, suc, min, Bool, true, false, ltb, ◌==◌, if◌then◌else◌, Text,
  is_empty, Dict, insert, List, [], ◌∷◌, length, take, replicate,
}
use phm.Types.{HealthChannelStatus, Doubles}

pub record MetricSlot (D : Type 0) : Type 0 where
  pub key : Text
  pub value : D

pub record HealthChannelData (D : Type 0) : Type 0 where
  pub alive_counter : ℕ
  pub last_update_ms : ℕ
  pub metric_count : ℕ
  pub metrics : List (MetricSlot D)

-- timeout is the 64-bit pattern of the count, as the comparison with an unsigned number reads it.
pub record HealthChannel (D : Type 0) : Type 0 where
  pub name : Text
  pub timeout : ℕ
  pub contents : HealthChannelData D

abbrev pub k_max_metrics : ℕ
k_max_metrics = 16

abbrev pub u64_mod : ℕ
u64_mod = 2 ^ 64

-- The bytes up to the first NUL.
unfoldable pub c_str : Text → Text
c_str [] = []
c_str (c ∷ cs) = if c == 0 then [] else c ∷ c_str cs

module _ {D : Type 0} where
  -- The constructor: the segment is filled with zero bytes, whoever else has it open.
  unfoldable pub create : Doubles D → Text → ℕ → HealthChannel D
  create d n t = record {
    name = n;
    timeout = t;
    contents = record {
      alive_counter = 0;
      last_update_ms = 0;
      metric_count = 0;
      metrics = replicate k_max_metrics (record { key = []; value = d.zero_point });
    };
  }

  unfoldable pub report : HealthChannel D → ℕ → ℕ → HealthChannel D
  report hc now counter = record hc {
    contents = record hc.contents { alive_counter = counter; last_update_ms = now };
  }

  unfoldable pub report_status : HealthChannel D → Text → Text → HealthChannel D × Bool
  report_status hc key value = (hc, true)

  -- The loop of reportMetrics: strncpy keeps 23 bytes of each key, and a slot past the last ends it.
  unfoldable pub write_slots : Dict D → List (MetricSlot D) → List (MetricSlot D)
  write_slots [] slots = slots
  write_slots ((k, v) ∷ m) [] = []
  write_slots ((k, v) ∷ m) (s ∷ slots) =
      record { key = take 23 (c_str k); value = v } ∷ write_slots m slots

  unfoldable pub report_metrics : HealthChannel D → Dict D → HealthChannel D
  unfolding write_slots
  report_metrics hc m = record hc {
    contents = record hc.contents {
      metrics = write_slots m hc.contents.metrics;
      metric_count = min (length m) k_max_metrics;
    };
  }

  -- The loop of getMetrics over the slots in use.
  unfoldable pub read_slots : ℕ → List (MetricSlot D) → Dict D → Dict D
  read_slots zero slots result = result
  read_slots (suc n) [] result = result
  read_slots (suc n) (s ∷ slots) result =
      read_slots n slots (if is_empty s.key then result else insert s.key s.value result)

  unfoldable pub get_metrics : HealthChannel D → Dict D
  unfolding read_slots
  get_metrics hc = read_slots (min hc.contents.metric_count k_max_metrics) hc.contents.metrics []

  unfoldable pub get_alive_counter : HealthChannel D → ℕ
  get_alive_counter hc = hc.contents.alive_counter

  -- now - last_update is a difference of unsigned 64-bit numbers.
  unfoldable pub get_status : HealthChannel D → ℕ → HealthChannelStatus
  get_status hc now = record {
    alive_counter = hc.contents.alive_counter;
    last_check = now;
    is_alive = ltb ((now + u64_mod - hc.contents.last_update_ms) % u64_mod) hc.timeout;
  }

  unfoldable pub is_alive : HealthChannel D → ℕ → Bool
  unfolding get_status
  is_alive hc now = (get_status hc now).is_alive

  unfoldable pub set_timeout : HealthChannel D → ℕ → HealthChannel D
  set_timeout hc t = record hc { timeout = t }
